-- ===== src/Config.antt =====
-- server/app/config.py: the settings and the values derived from them. Reading the environment is
-- pydantic-settings' work, so a `Settings` value is an argument wherever it is used.
use murray_context_ledger_mc.Base.{
  String, ◌<>◌, Bool, false, not, Option, none, some, List, [], ◌∷◌, ◌++◌, ◌==◌, if◌then◌else◌,
}

pub record Settings : Type 0 where
  pub auth0_domain : String
  pub auth0_audience : String
  pub auth0_api_audience : Option String
  pub supabase_url : String
  pub supabase_anon_key : String
  pub supabase_service_role_key : String
  pub supabase_jwt_secret : String
  pub resource_server_url : String

-- A Python condition on an optional text: absent and empty are both false.
abbrev pub truthy : Option String → Bool
truthy none = false
truthy (some s) = not (s == "")

unfoldable pub append_api_audience : Option String → List String → List String
append_api_audience none audiences = audiences
append_api_audience (some aud) audiences =
    if truthy (some aud) then audiences ++ (aud ∷ []) else audiences

unfoldable pub accepted_audiences : Settings → List String
unfolding append_api_audience
accepted_audiences s = append_api_audience s.auth0_api_audience (s.auth0_audience ∷ [])

unfoldable pub auth0_issuer : Settings → String
auth0_issuer s = "https://" <> (s.auth0_domain <> "/")

unfoldable pub auth0_jwks_url : Settings → String
auth0_jwks_url s = "https://" <> (s.auth0_domain <> "/.well-known/jwks.json")
