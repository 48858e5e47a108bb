-- ===== src/Db.antt =====
-- server/app/db.py: the client factories and the short-lived token of a caller. `create_client`
-- keeps what it is given; `jwt.encode` is the parameter `encode`, `time.time()` the number `now`.
use murray_context_ledger_mc.Base.{ℕ, String, ◌<>◌, ◌+◌, Option, none, some, List, if◌then◌else◌}
use murray_context_ledger_mc.Config.{Settings, truthy}

pub record Client : Type 0 where
  pub url : String
  pub key : String
  pub authorization : Option String

abbrev pub db_token_ttl_seconds : ℕ
db_token_ttl_seconds = 120

unfoldable pub user_client : Settings → String → Client
user_client settings access_token = record {
  url = settings.supabase_url;
  key = settings.supabase_anon_key;
  authorization = some ("Bearer " <> access_token);
}

unfoldable pub service_client : Settings → Client
service_client settings = record {
  url = settings.supabase_url;
  key = settings.supabase_service_role_key;
  authorization = none;
}

pub record DbClaims : Type 0 where
  pub sub : String
  pub role : String
  pub aud : String
  pub iss : String
  pub iat : ℕ
  pub exp : ℕ
  pub email : Option String
  pub org_ids : Option (List String)

-- `claims` of `mint_db_token`; an absent key is `none`.
unfoldable pub db_claims : ℕ → String → Option String → Option (List String) → DbClaims
db_claims now sub email org_ids = record {
  sub = sub;
  role = "authenticated";
  aud = "authenticated";
  iss = "murray-ledger-server";
  iat = now;
  exp = now + db_token_ttl_seconds;
  email = if truthy email then email else none;
  org_ids = org_ids;
}

module _ (encode : DbClaims → String → String) (settings : Settings) (now : ℕ) where
  unfoldable pub mint_db_token : String → Option String → Option (List String) → String
  unfolding db_claims
  mint_db_token sub email org_ids =
      encode (db_claims now sub email org_ids) settings.supabase_jwt_secret

  unfoldable pub client_for_subject : String → Option String → Option (List String) → Client
  unfolding mint_db_token user_client
  client_for_subject sub email org_ids = user_client settings (mint_db_token sub email org_ids)
