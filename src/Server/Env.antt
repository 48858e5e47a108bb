-- ===== src/Server/Env.antt =====
-- What a tool call of server/app/mcp_server.py depends on besides its arguments: the settings, the
-- token that the SDK put in the request's context, the database, and the third-party functions.
use murray_context_ledger_mc.Base.{ℕ, String, Option, none, some, List, ◌≡◌}
use murray_context_ledger_mc.Json.{Json}
use murray_context_ledger_mc.Schemas.{FactInput, IsDeclared}
use murray_context_ledger_mc.Config.{Settings}
use murray_context_ledger_mc.Db.{DbClaims, client_for_subject}
use murray_context_ledger_mc.Auth.{AccessToken}
use murray_context_ledger_mc.Store.Backend.{Backend}
use murray_context_ledger_mc.Store.Laws.{IsLawful}

-- One entry of pydantic's `exc.errors()`: the location, part by part, and the message.
pub record Problem : Type 0 where
  pub loc : List String
  pub msg : String

-- What `FactInput.model_validate` returns, or the errors of the `ValidationError` that it raises.
pub data Validated : Type 0 where
  valid : FactInput → Validated
  invalid : List Problem → Validated

pub record Env : Type 1 where
  pub backend : Backend
  pub settings : Settings
  pub token : Option AccessToken
  pub now : ℕ
  -- `jwt.encode(claims, secret, algorithm="HS256")`
  pub encode : DbClaims → String → String
  pub model_validate : Json → Validated
  pub sha256_hex : String → String
  -- The scheme and the netloc of `urlparse(url)`.
  pub scheme : String → String
  pub netloc : String → String

-- What is relied on: a lawful database that reads the caller from a token signed with the shared
-- secret, and a validation that accepts only what the class declares.
pub record IsLawfulEnv (E : Env) : Type 0 where
  pub lawful : IsLawful E.backend
  pub signed :
      (sub : String) (email : Option String)
      → E.backend.subject (client_for_subject E.encode E.settings E.now sub email none) ≡ some sub
  pub validates : (raw : Json) (f : FactInput) → E.model_validate raw ≡ valid f → IsDeclared f
