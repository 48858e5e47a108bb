-- ===== src/Tests/Texts.antt =====
-- Instances of the theorems on tokens, search patterns, scopes and reading calls.
use murray_context_ledger_mc.Base.{
  ◌≡◌, refl, sym, ap, subst, ◌==◌, ◌&&◌, eq_iff, and_left, and_right, any, contains, Bool,
  if◌then◌else◌, String, eqb, true, false, none, some, [], ◌∷◌,
}
use murray_context_ledger_mc.Effect.{Result, ok}
use murray_context_ledger_mc.Effect.Runs.{Runs}
use murray_context_ledger_mc.Schemas.{default_scope_tags}
use murray_context_ledger_mc.Uuid.{codes}
use murray_context_ledger_mc.Config.{accepted_audiences, auth0_issuer, auth0_jwks_url}
use murray_context_ledger_mc.Auth.{
  AccessToken, Claims, Decoded, DecodeOptions, decoded, failed, invalid_token, one, access_token,
}
use murray_context_ledger_mc.Auth.Identity.{
  Carries, IsPyJwt, Trusted, audiences, access_token_returned,
}
use murray_context_ledger_mc.Store.{Tables, FactRow, FactStatus, ClientRow, ClientInsert}
use murray_context_ledger_mc.Store.Backend.{IsNewSeat}
use murray_context_ledger_mc.Server.Render.{like_pattern}
use murray_context_ledger_mc.Server.Render.Pattern.{ilike, ends, begins_with, ilike-like_pattern}
use murray_context_ledger_mc.Server.Scope.Visible.{Visible}
use murray_context_ledger_mc.Server.Scope.Defaults.{default_tags-Visible}
use murray_context_ledger_mc.Server.Request.{ping_request, serve}
use murray_context_ledger_mc.Server.Request.Reading.{SameFacts, serve-SameFacts}
use murray_context_ledger_mc.Tests.Memory.{seat_row}
use murray_context_ledger_mc.Tests.World.{
  as_user, as_user-IsLawfulEnv, settings, ledger, tea_row, owner_context, value, returned,
}

abbrev ping_run : Result String × Tables
ping_run = serve (as_user "u2" "app") ping_request ledger

ping-Runs : Runs (serve (as_user "u2" "app") ping_request) ledger (value "" ping_run) ping_run.1
unfolding serve murray_context_ledger_mc.Server.Tools.Read.ping
    murray_context_ledger_mc.Server.Context.begin murray_context_ledger_mc.Db.client_for_subject
    murray_context_ledger_mc.Store.user_org_ids murray_context_ledger_mc.Server.Context.audit_row
ping-Runs = returned (serve (as_user "u2" "app") ping_request) ledger "" refl

serve-SameFacts_example : SameFacts ledger ping_run.1
serve-SameFacts_example =
    serve-SameFacts (as_user "u2" "app") (as_user-IsLawfulEnv "u2" "app") ping_request ledger
      (value "" ping_run) ping_run.1 refl ping-Runs

ilike-like_pattern_example :
    ilike eqb "at 50% off" (like_pattern "50%*f")
    ≡ ends (begins_with eqb (codes "50%*f")) (codes "at 50% off")
ilike-like_pattern_example = ilike-like_pattern eqb "50%*f" "at 50% off"

-- The `*` of a query is a wildcard, its `%` is not.
star_test : ilike eqb "tea at noon" (like_pattern "tea*noon") ≡ true
unfolding like_pattern
star_test = refl

percent_test : ilike eqb "tea at noon" (like_pattern "tea%noon") ≡ false
unfolding like_pattern
percent_test = refl

abbrev first_contact : ClientInsert
first_contact = record {
  org_id = "o1";
  user_id = "u1";
  oauth_client_id = "new";
  display_name = "new";
}

first_contact-IsNewSeat : IsNewSeat first_contact (seat_row first_contact)
first_contact-IsNewSeat = record {
  org_id = refl;
  user_id = refl;
  oauth_client_id = refl;
  display_name = refl;
  granted_scopes = refl;
  status = refl;
  connector_source = refl;
}

abbrev untagged : FactRow
untagged = record tea_row { scope_tags = default_scope_tags }

default_tags-Visible_example : ¬ Visible FactStatus.active owner_context none ledger untagged
default_tags-Visible_example =
    default_tags-Visible first_contact (seat_row first_contact) owner_context FactStatus.active
      ledger untagged first_contact-IsNewSeat refl refl

abbrev claims : Claims
claims = record {
  sub = "u1";
  iss = some "https://tenant.auth0.com/";
  aud = one "https://ledger";
  azp = some "app";
  scope = some "read";
  exp = some 2000;
  email = none;
}

abbrev signed_by : String → String → Bool
signed_by uri token = uri == "https://tenant.auth0.com/.well-known/jwks.json"

-- Whether these claims, in an RS256 token that the tenant has signed, pass.
abbrev passes : DecodeOptions → Bool
passes o =
    (contains o.algorithms "RS256" && signed_by o.keys.uri "jwt")
    && (o.issuer == "https://tenant.auth0.com/" && any (contains o.audience) (audiences claims.aud))

abbrev decode : String → DecodeOptions → Decoded
decode token o = if passes o then decoded claims else failed invalid_token

decode-passes :
    (b : Bool) (c : Claims)
    → (if b then decoded claims else failed invalid_token) ≡ decoded c
    → (b ≡ true) × (claims ≡ c)
decode-passes true c h = (refl, cc)
decode-passes false c h = cc

decode-IsPyJwt : IsPyJwt (λ token. "RS256") (λ token name. true) signed_by decode
decode-IsPyJwt = record {
  checks_algorithm = λ token o c h. and_left _ _ (and_left _ _ (decode-passes (passes o) c h).0);
  checks_signature = λ token o c h. and_right _ _ (and_left _ _ (decode-passes (passes o) c h).0);
  checks_issuer = λ token o c h.
      let (pass, same) = decode-passes (passes o) c h in
      let named =
        (eq_iff o.issuer "https://tenant.auth0.com/").0 (and_left _ _ (and_right _ _ pass)) in
      rw (← same) (ap some (sym named));
  checks_audience = λ token o c h.
      let (pass, same) = decode-passes (passes o) c h in
      subst (λ (x : Claims). any (contains o.audience) (audiences x.aud) ≡ true) same
        (and_right _ _ (and_right _ _ pass));
  checks_required = λ token o c name h required. refl;
}

abbrev hash : String → String
hash s = s

abbrev bearer : AccessToken
bearer = record {
  token = "jwt";
  client_id = "app";
  scopes = "read" ∷ [];
  expires_at = some 2000;
  subject = some "u1";
  claims = some claims;
}

bearer_accepted : access_token decode hash "jwt" settings ≡ ok (some bearer)
unfolding access_token accepted_audiences auth0_issuer auth0_jwks_url
bearer_accepted = refl

access_token_example :
    (c : Claims) × Trusted hash decode
      (λ token. "RS256")
      (λ token name. true)
      signed_by
      "jwt"
      settings
      c
    × Carries hash "jwt" c bearer
access_token_example =
    access_token_returned hash decode (λ token. "RS256") (λ token name. true) signed_by
      decode-IsPyJwt "jwt" settings bearer bearer_accepted
