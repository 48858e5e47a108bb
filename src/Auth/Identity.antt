-- ===== src/Auth/Identity.antt =====
-- What an access token that the verifier of server/app/mcp_server.py accepts stands for.
use murray_context_ledger_mc.Base.{
  ℕ, ◌+◌, ◌≡◌, ◌≢◌, refl, sym, ap, ◌∙◌, subst, ◌⊎◌, inl, inr, String, ◌<>◌, ◌==◌, eq_iff, Bool,
  true, Bool-cases, List, [], ◌∷◌, any, contains, Has, All, Option, none, some, size, size-append,
  arith,
}
use murray_context_ledger_mc.Effect.{Result, ok}
use murray_context_ledger_mc.Config.{
  Settings, truthy, append_api_audience, accepted_audiences, auth0_issuer, auth0_jwks_url,
}
use murray_context_ledger_mc.Auth.{
  Claims, AccessToken, Audience, missing, one, many, Decoded, decoded, failed, DecodeOptions,
  decode_options, invalid_token, jwk_client_error, unforeseen, or_unauthorized, access_token_of,
  access_token, oauth_client_identity, text_or,
}

-- The audiences of a token.
abbrev pub audiences : Audience → List String
audiences missing = []
audiences (one a) = a ∷ []
audiences (many as') = as'

-- What PyJWT documents of `jwt.decode`, for the readings of a token's header, of the names of its
-- claims, and of its signature under the keys of a URL: claims come back only if the algorithm is
-- one of those given, the signature is good, the issuer is the one given, one of the audiences is
-- among those given, and each required claim is there.
pub record IsPyJwt (algorithm : String → String) (has_claim : String → String → Bool)
    (signed_by : String → String → Bool) (decode : String → DecodeOptions → Decoded) : Type 0 where
  pub checks_algorithm :
      (token : String) (o : DecodeOptions) (c : Claims)
      → decode token o ≡ decoded c
      → contains o.algorithms (algorithm token) ≡ true
  pub checks_signature :
      (token : String) (o : DecodeOptions) (c : Claims)
      → decode token o ≡ decoded c
      → signed_by o.keys.uri token ≡ true
  pub checks_issuer :
      (token : String) (o : DecodeOptions) (c : Claims)
      → decode token o ≡ decoded c
      → c.iss ≡ some o.issuer
  pub checks_audience :
      (token : String) (o : DecodeOptions) (c : Claims)
      → decode token o ≡ decoded c
      → any (contains o.audience) (audiences c.aud) ≡ true
  pub checks_required :
      (token : String) (o : DecodeOptions) (c : Claims) (name : String)
      → decode token o ≡ decoded c
      → contains o.require name ≡ true
      → has_claim token name ≡ true

five : (n m : ℕ) → n ≡ 5 + m → n ≡ 0 → ⊥
five n m h k = omega arith

same_token :
    {A : Type 0} {a b : A} → ◌≡◌ {A = Result (Option A)} (ok (some a)) (ok (some b)) → a ≡ b
same_token h = cc

any-found :
    (p : String → Bool) (xs : List String)
    → any p xs ≡ true
    → (x : String) × Has x xs × (p x ≡ true)
any-found p [] h = cc
any-found p (x ∷ xs) h = elim (Bool-cases (p x)) [
  | inl e ↦ (x, inl refl, e)
  | inr e ↦ let (y, m, k) = any-found p xs (rw e at h) in (y, inr m, k)
]

only : (a x : String) → contains (a ∷ []) x ≡ true → x ≡ a
only a x h = ground (arith, eq_iff x a)

either : (a b x : String) → contains (a ∷ b ∷ []) x ≡ true → (x ≡ a) ⊎ (x ≡ b)
either a b x h = elim (Bool-cases (x == a)) [
  | inl e ↦ inl ((eq_iff x a).0 e)
  | inr e ↦ inr (only b x (rw e at h))
]

module _ (sha256_hex : String → String) where
  anonymous : (s : String) → ("anon-" <> s) ≢ ""
  anonymous s e = five (size ("anon-" <> s)) (size s) (size-append "anon-" s) (ap size e)

  named : (azp : Option String) → truthy azp ≡ true → text_or azp "" ≢ ""
  unfolding text_or
  named none h e = cc
  named (some a) h e = ground (arith, eq_iff a "")

  -- The identity of a client is never empty.
  oauth_client_identity-nonempty : (c : Claims) → oauth_client_identity sha256_hex c ≢ ""
  unfolding oauth_client_identity
  oauth_client_identity-nonempty c = elim (Bool-cases (truthy c.azp)) [
    | inl h ↦ rw h (named c.azp h)
    | inr h ↦ rw h (anonymous _)
  ]

  -- What the token carries, for claims that were decoded.
  pub record Carries (token : String) (c : Claims) (t : AccessToken) : Type 0 where
    pub token_is : t.token ≡ token
    pub subject : t.subject ≡ some c.sub
    pub claims : t.claims ≡ some c
    pub expires_at : t.expires_at ≡ c.exp
    pub client_id : t.client_id ≢ ""

  module _ (decode : String → DecodeOptions → Decoded) where
    access_token_of_returned :
        (token : String) (r : Decoded) (t : AccessToken)
        → access_token_of decode sha256_hex token (or_unauthorized r) ≡ ok (some t)
        → (c : Claims) × (r ≡ decoded c) × Carries token c t
    unfolding access_token_of or_unauthorized
    access_token_of_returned token (decoded c) t h =
        let same = same_token h in
        (
          c,
          refl,
          subst (Carries token c) same (record {
            token_is = refl;
            subject = refl;
            claims = refl;
            expires_at = refl;
            client_id = oauth_client_identity-nonempty c;
          }),
        )
    access_token_of_returned token (failed invalid_token) t h = cc
    access_token_of_returned token (failed jwk_client_error) t h = cc
    access_token_of_returned token (failed (unforeseen e)) t h = cc

    -- An audience that the settings name.
    abbrev pub IsAccepted : Settings → String → Type 0
    IsAccepted settings a = (a ≡ settings.auth0_audience) ⊎ (settings.auth0_api_audience ≡ some a)

    -- An RS256 token that the tenant has signed and issued for this server.
    pub record Trusted (algorithm : String → String) (has_claim : String → String → Bool)
        (signed_by : String → String → Bool) (token : String) (settings : Settings) (c : Claims)
        : Type 0 where
      pub rs256 : algorithm token ≡ "RS256"
      pub signed :
          signed_by ("https://" <> (settings.auth0_domain <> "/.well-known/jwks.json")) token ≡ true
      pub issuer : c.iss ≡ some ("https://" <> (settings.auth0_domain <> "/"))
      pub audience : (a : String) × Has a (audiences c.aud) × IsAccepted settings a
      pub required :
          All (λ name. has_claim token name ≡ true) ("exp" ∷ "iat" ∷ "iss" ∷ "aud" ∷ "sub" ∷ [])

    contains-IsAccepted :
        (settings : Settings) (o : Option String) (a : String)
        → settings.auth0_api_audience ≡ o
        → contains (append_api_audience o (settings.auth0_audience ∷ [])) a ≡ true
        → IsAccepted settings a
    unfolding append_api_audience
    contains-IsAccepted settings none a e h = inl (only (settings.auth0_audience) a h)
    contains-IsAccepted settings (some api) a e h = elim (Bool-cases (api == "")) [
      | inl empty ↦ inl (only (settings.auth0_audience) a (rw empty at h))
      | inr named ↦ elim (either settings.auth0_audience api a (rw named at h)) [
        | inl same ↦ inl same
        | inr same ↦ inr (e ∙ ap some (sym same))
      ]
    ]

    trusted :
        (algorithm : String → String) (has_claim : String → String → Bool)
        (signed_by : String → String → Bool) (P : IsPyJwt algorithm has_claim signed_by decode)
        (token : String) (settings : Settings) (c : Claims)
        → decode token (decode_options settings) ≡ decoded c
        → Trusted algorithm has_claim signed_by token settings c
    unfolding accepted_audiences auth0_issuer auth0_jwks_url
    trusted algorithm has_claim signed_by P token settings c h =
        let o = decode_options settings in
        let (a, inside, accepted) =
          any-found (contains o.audience) (audiences c.aud) (P.checks_audience token o c h) in
        record {
          rs256 = only "RS256" (algorithm token) (P.checks_algorithm token o c h);
          signed = P.checks_signature token o c h;
          issuer = P.checks_issuer token o c h;
          audience =
              (a, inside, contains-IsAccepted settings settings.auth0_api_audience a refl accepted);
          required = (
            P.checks_required token o c "exp" h refl,
            (
              P.checks_required token o c "iat" h refl,
              (
                P.checks_required token o c "iss" h refl,
                (
                  P.checks_required token o c "aud" h refl,
                  (P.checks_required token o c "sub" h refl, tt),
                ),
              ),
            ),
          );
        }

    -- If the verifier accepts a token, where PyJWT checks what it documents, it is an RS256 token
    -- that the keys of the tenant's domain have signed, issued by the tenant, for the application's
    -- audience or for the one of the API where that is set, with all of exp, iat, iss, aud and sub.
    -- The access token carries the subject, the claims and the expiry of these very claims, and a
    -- client identity that is not empty.
    pub access_token_returned :
        (algorithm : String → String) (has_claim : String → String → Bool)
        (signed_by : String → String → Bool) (P : IsPyJwt algorithm has_claim signed_by decode)
        (token : String) (settings : Settings) (t : AccessToken)
        → access_token decode sha256_hex token settings ≡ ok (some t)
        → (c : Claims) × Trusted algorithm has_claim signed_by token settings c × Carries token c t
    unfolding access_token
    access_token_returned algorithm has_claim signed_by P token settings t h =
        let (c, got, carries) =
          access_token_of_returned token (decode token (decode_options settings)) t h in
        (c, trusted algorithm has_claim signed_by P token settings c got, carries)
