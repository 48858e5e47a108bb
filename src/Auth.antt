-- ===== src/Auth.antt =====
-- server/app/auth.py and the token verifier of server/app/mcp_server.py. PyJWT's signature and
-- claim checks are the parameter `decode`, which is given what the server passes to `jwt.decode`.
pub mod Identity
use Prim.Native.Char.{Char, code}
use murray_context_ledger_mc.Base.{
  ℕ, String, ◌<>◌, ◌==◌, Option, none, some, List, [], ◌∷◌, join, keep, not, prefix_of, ◌≡◌, refl,
  if◌then◌else◌, is_space, Bool, true,
}
use murray_context_ledger_mc.Effect.{Result, ok, err, other_error}
use murray_context_ledger_mc.Config.{
  Settings, truthy, accepted_audiences, auth0_issuer, auth0_jwks_url,
}

-- The `aud` claim: absent, a text or a list.
pub data Audience : Type 0 where
  missing : Audience
  one : String → Audience
  many : List String → Audience

pub record Claims : Type 0 where
  pub sub : String
  pub iss : Option String
  pub aud : Audience
  pub azp : Option String
  pub scope : Option String
  pub exp : Option ℕ
  pub email : Option String

pub record AccessToken : Type 0 where
  pub token : String
  pub client_id : String
  pub scopes : List String
  pub expires_at : Option ℕ
  pub subject : Option String
  pub claims : Option Claims

-- The arguments of `PyJWKClient`, the client of which `_jwks_client` keeps one for each URL.
pub record JwksClient : Type 0 where
  pub uri : String
  pub cache_keys : Bool
  pub max_cached_keys : ℕ
  -- In seconds.
  pub lifespan : ℕ

abbrev pub jwks_client : String → JwksClient
jwks_client jwks_url = record {
  uri = jwks_url;
  cache_keys = true;
  max_cached_keys = 16;
  lifespan = 3600;
}

-- The client that finds the key of a token, and the options of `jwt.decode`.
pub record DecodeOptions : Type 0 where
  pub keys : JwksClient
  pub algorithms : List String
  pub audience : List String
  pub issuer : String
  pub require : List String

-- What `jwt` or the key client raised: an error of PyJWT, or something else.
pub data JwtError : Type 0 where
  invalid_token jwk_client_error : JwtError
  unforeseen : String → JwtError

pub data Decoded : Type 0 where
  decoded : Claims → Decoded
  failed : JwtError → Decoded

pub record HttpException : Type 0 where
  pub status_code : ℕ
  pub detail : String
  pub headers : List (String × String)

-- `_unauthorized`
abbrev pub unauthorized : HttpException
unauthorized = record {
  status_code = 401;
  detail = "Invalid or missing credentials";
  headers = ("WWW-Authenticate", "Bearer") ∷ [];
}

-- The claims, an `HTTPException`, or an exception that the route does not foresee.
pub data Verified : Type 0 where
  accepted : Claims → Verified
  http_exception : HttpException → Verified
  crashed : String → Verified

or_unauthorized : Decoded → Verified
or_unauthorized (decoded c) = accepted c
or_unauthorized (failed invalid_token) = http_exception unauthorized
or_unauthorized (failed jwk_client_error) = http_exception unauthorized
or_unauthorized (failed (unforeseen e)) = crashed e

abbrev pub decode_options : Settings → DecodeOptions
decode_options settings = record {
  keys = jwks_client (auth0_jwks_url settings);
  algorithms = "RS256" ∷ [];
  audience = accepted_audiences settings;
  issuer = auth0_issuer settings;
  require = "exp" ∷ "iat" ∷ "iss" ∷ "aud" ∷ "sub" ∷ [];
}

text_or : Option String → String → String
text_or none d = d
text_or (some s) d = s

-- `str(None)` for a missing claim
audience_text : Audience → String
audience_text missing = "None"
audience_text (one a) = a
audience_text (many as') = join "," as'

-- Python's `s.split()`: the words between spaces. The flag says whether a word
-- is open, and its reversal is avoided by prepending to the first word of the rest.
cons_word : Char → List String → List String
cons_word c [] = String.◌∷◌ c "" ∷ []
cons_word c (w ∷ ws) = String.◌∷◌ c w ∷ ws

-- The first entry is the word that the text begins with, and is empty before a space.
pieces : String → List String
unfolding cons_word is_space
pieces String.[] = "" ∷ []
pieces (String.◌∷◌ c s) =
    let rest = pieces s in let n = code c in if is_space n then "" ∷ rest else cons_word c rest

unfoldable pub split : String → List String
unfolding pieces
split s = keep (λ w. not (w == "")) (pieces s)

module _ (sha256_hex : String → String) where
  -- `_oauth_client_identity`
  unfoldable pub oauth_client_identity : Claims → String
  unfolding text_or audience_text
  oauth_client_identity claims =
      if truthy claims.azp
      then text_or claims.azp ""
      else "anon-"
        <> prefix_of 16 (sha256_hex (text_or claims.iss "" <> ("|" <> audience_text claims.aud)))

-- `current_user`: the caller, `("sub", "email")`, or what is raised.
pub data Current : Type 0 where
  user : String → Option String → Current
  refused : HttpException → Current
  broken : String → Current

caller : Verified → Current
caller (accepted c) = user c.sub c.email
caller (http_exception e) = refused e
caller (crashed e) = broken e

module _ (decode : String → DecodeOptions → Decoded) where
  -- `verify_token`
  unfoldable pub verify_token : String → Settings → Verified
  unfolding or_unauthorized
  verify_token token settings = or_unauthorized (decode token (decode_options settings))

  unfoldable pub current_user : Option String → Settings → Current
  unfolding verify_token caller
  current_user none settings = refused unauthorized
  current_user (some credentials) settings = caller (verify_token credentials settings)

  module _ (sha256_hex : String → String) where
    -- `Auth0AccessTokenVerifier.verify_token`; `none` is the `None` after an `HTTPException`, and
    -- any other exception passes on.
    access_token_of : String → Verified → Result (Option AccessToken)
    unfolding oauth_client_identity
    access_token_of token (accepted c) = ok (
        some (record {
          token = token;
          client_id = oauth_client_identity sha256_hex c;
          scopes = split (text_or c.scope "");
          expires_at = c.exp;
          subject = some c.sub;
          claims = some c;
        }))
    access_token_of token (http_exception e) = ok none
    access_token_of token (crashed e) = err (other_error e)

    unfoldable pub access_token : String → Settings → Result (Option AccessToken)
    unfolding access_token_of verify_token split text_or
    access_token token settings = access_token_of token (verify_token token settings)

split_test : split " read:facts  write " ≡ "read:facts" ∷ "write" ∷ []
unfolding split
split_test = refl
