-- ===== src/Tests/World.antt =====
-- A small ledger: an owner, a rep and an office of one org, a revoked seat, and a second org.
use murray_context_ledger_mc.Base.{
  ◌≡◌, refl, sym, ◌∙◌, ap, ◌^◌, String, ◌<>◌, Bool, true, false, Option, none, some, [], ◌∷◌, size,
  arith, inl, inr,
}
use text.Mathlib.TextLemmas.{nil-append, cons-append}
use murray_context_ledger_mc.Effect.{Result, ok, err}
use murray_context_ledger_mc.Json.{Json, object, field, end, null}
use murray_context_ledger_mc.Schemas.{FactType, FactSource, FactInput, IsDeclared, scale}
use murray_context_ledger_mc.Config.{Settings}
use murray_context_ledger_mc.Db.{client_for_subject}
use murray_context_ledger_mc.Auth.{AccessToken, missing}
use murray_context_ledger_mc.Store.{Tables, FactRow, FactStatus, ClientRow, SeatStatus, Role}
use murray_context_ledger_mc.Server.Env.{Env, IsLawfulEnv, Validated, valid, invalid}
use murray_context_ledger_mc.Server.Context.{ToolContext}
use murray_context_ledger_mc.Store.Change.{UniqueKeys}
use murray_context_ledger_mc.Tests.Memory.{after, memory_with}
use murray_context_ledger_mc.Tests.Seated.{memory_with-IsLawful}

after-append : (s t : String) → after (size s) (s <> t) ≡ t
after-append String.[] t = rw nil-append refl
after-append (String.◌∷◌ c s) t = rw cons-append (after-append s t)

-- A fact with this content and key, as the class takes it: half sure, in the scope of work.
abbrev pub fact_of : String → Option String → FactInput
fact_of content key = record {
  type = FactType.preference;
  content = content;
  confidence = 2 ^ 1073;
  scope_tags = "work" ∷ [];
  source = FactSource.mcp_writeback;
  source_ref = none;
  dedupe_key = key;
}

abbrev missing_content : Validated
missing_content = invalid (record { loc = "content" ∷ []; msg = "Field required" } ∷ [])

abbrev checked : String → Option String → Validated
checked String.[] key = missing_content
checked (String.◌∷◌ c s) key = valid (fact_of (String.◌∷◌ c s) key)

-- A validation that reads a content, and a key after it.
abbrev pub validate : Json → Validated
validate (object (field _ (Json.text content) end)) = checked content none
validate (object (field _ (Json.text content) (field _ (Json.text key) end))) =
    checked content (some key)
validate _ = missing_content

abbrev pub token_of : String → String → AccessToken
token_of sub client = record {
  token = "jwt";
  client_id = client;
  scopes = [];
  expires_at = none;
  subject = some sub;
  claims = some (record {
    sub = sub;
    iss = none;
    aud = missing;
    azp = some client;
    scope = none;
    exp = none;
    email = none;
  });
}

abbrev pub settings : Settings
settings = record {
  auth0_domain = "tenant.auth0.com";
  auth0_audience = "https://ledger";
  auth0_api_audience = none;
  supabase_url = "http://db";
  supabase_anon_key = "anon";
  supabase_service_role_key = "service";
  supabase_jwt_secret = "secret";
  resource_server_url = "https://ledger.example";
}

abbrev pub world_with : Bool → Option AccessToken → Env
world_with writable token = record {
  backend = memory_with writable;
  settings = settings;
  token = token;
  now = 1000;
  encode = λ claims secret. claims.sub;
  model_validate = validate;
  sha256_hex = λ s. s;
  scheme = λ url. "https";
  netloc = λ url. "ledger.example";
}

abbrev pub world : Option AccessToken → Env
world = world_with true

abbrev pub as_user : String → String → Env
as_user sub client = world (some (token_of sub client))

checked-IsDeclared :
    (content : String) (key : Option String) (f : FactInput)
    → checked content key ≡ valid f
    → IsDeclared f
unfolding scale
checked-IsDeclared String.[] key f h = cc
checked-IsDeclared (String.◌∷◌ c s) key f h =
    let same : fact_of (String.◌∷◌ c s) key ≡ f = cc in
    rw (← same) (record { min_length = omega arith; le = omega arith })

pub world_with-IsLawfulEnv :
    (writable : Bool) (token : Option AccessToken) → IsLawfulEnv (world_with writable token)
unfolding client_for_subject
world_with-IsLawfulEnv writable token = record {
  lawful = memory_with-IsLawful writable;
  signed = λ sub email. ap some (after-append "Bearer " sub);
  validates = declared;
}
  where
    declared : (raw : Json) (f : FactInput) → validate raw ≡ valid f → IsDeclared f
    declared (object (field k (Json.text content) end)) f h = checked-IsDeclared content none f h
    declared (object (field k (Json.text content) (field l (Json.text key) end))) f h =
        checked-IsDeclared content (some key) f h
    declared _ f h = cc

pub world-IsLawfulEnv : (token : Option AccessToken) → IsLawfulEnv (world token)
world-IsLawfulEnv token = world_with-IsLawfulEnv true token

abbrev pub fact : String → String → FactStatus → String → Option String → FactRow
fact id org status content key = record {
  id = id;
  org_id = org;
  user_id = "u1";
  type = FactType.preference;
  content = content;
  confidence = 2 ^ 1073;
  scope_tags = "work" ∷ "personal" ∷ [];
  source = FactSource.mcp_writeback;
  source_ref = none;
  status = status;
  superseded_by = none;
  dedupe_key = key;
  first_seen = "2026-01-01T00:00:00+00:00";
  last_seen = "2026-01-01T00:00:00+00:00";
  created_at = "2026-01-01T00:00:00+00:00";
}

abbrev seat : String → SeatStatus → ClientRow
seat id status = record {
  id = id;
  org_id = "o1";
  user_id = "u1";
  oauth_client_id = id;
  display_name = id;
  granted_scopes = "personal" ∷ "work" ∷ [];
  status = status;
  connector_source = none;
  revoked_at = none;
  created_at = "2026-01-01T00:00:00+00:00";
}

abbrev pub tea : String
tea = "00000000-0000-4000-8000-000000000001"

abbrev pub coffee : String
coffee = "00000000-0000-4000-8000-000000000002"

abbrev secret : String
secret = "00000000-0000-4000-8000-000000000003"

abbrev pub tea_row : FactRow
tea_row = fact tea "o1" FactStatus.active "Tea" (some "drink")

abbrev pub coffee_row : FactRow
coffee_row = fact coffee "o1" FactStatus.pending_review "Coffee" none

abbrev pub secret_row : FactRow
secret_row = fact secret "o2" FactStatus.active "Secret" none

abbrev pub ledger : Tables
ledger = record {
  orgs = [];
  memberships =
      record { org_id = "o1"; user_id = "u1"; role = Role.owner }
      ∷ record { org_id = "o1"; user_id = "u2"; role = Role.rep }
      ∷ record { org_id = "o2"; user_id = "u3"; role = Role.owner }
      ∷ [];
  clients = seat "app" SeatStatus.active ∷ seat "old" SeatStatus.revoked ∷ [];
  facts = tea_row ∷ coffee_row ∷ secret_row ∷ [];
  audit_log = [];
}

-- What a run returned, where it did.
abbrev pub value : {S A : Type 0} → A → Result A × S → A
value a r = elim r.0 [ ok b ↦ b | err e ↦ a ]

abbrev pub is_ok : {S A : Type 0} → Result A × S → Bool
is_ok (ok a, s) = true
is_ok (err e, s) = false

module _ {S A : Type 0} where
  returned_pair : (a : A) (r : Result A × S) → is_ok r ≡ true → r ≡ (ok (value a r), r.1)
  returned_pair a (ok b, t) h = refl
  returned_pair a (err x, t) h = cc

  -- A run that returned, from the test that it did.
  pub returned :
      (m : S → Result A × S) (s : S) (a : A)
      → is_ok (m s) ≡ true
      → m s ≡ (ok (value a (m s)), (m s).1)
  returned m s a h = returned_pair a (m s) h

pub as_user-IsLawfulEnv : (sub client : String) → IsLawfulEnv (as_user sub client)
as_user-IsLawfulEnv sub client = world-IsLawfulEnv (some (token_of sub client))

-- The owner's context, as `_begin` makes it.
abbrev pub owner_context : ToolContext
owner_context = record {
  db = record { url = "http://db"; key = "anon"; authorization = some "Bearer u1" };
  user_sub = "u1";
  org_id = "o1";
  role = Role.owner;
  client_row_id = "app";
  granted_scopes = "personal" ∷ "work" ∷ [];
  connector_source = none;
  tool = "remember_facts";
  arguments = null;
}

-- The same ledger with one fact.
abbrev pub shelf : Tables
shelf = record ledger { facts = tea_row ∷ [] }

pub shelf-UniqueKeys : UniqueKeys shelf.facts
shelf-UniqueKeys r q key (inl a) (inl b) h k o = a ∙ sym b
shelf-UniqueKeys r q key (inl a) (inr b) h k o = absurd b
shelf-UniqueKeys r q key (inr a) b h k o = absurd a

-- A fact as a caller sends it: a content, and a key that may be missing.
abbrev pub sent : String → Option String → Json
sent content none = object (field "content" (Json.text content) end)
sent content (some key) =
    object (field "content" (Json.text content) (field "key" (Json.text key) end))
