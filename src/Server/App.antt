-- ===== src/Server/App.antt =====
-- server/app/main.py: what `create_app` serves itself, beside the MCP application that it mounts.
-- FastAPI's routing and the lifespan of the session manager are left to the libraries.
use murray_context_ledger_mc.Base.{◌≡◌, refl, String, List, [], ◌∷◌}
use murray_context_ledger_mc.Config.{Settings, auth0_issuer}
use murray_context_ledger_mc.Auth.{decode_options}
use murray_context_ledger_mc.Server.Registry.{FastMcp, build_mcp}

-- `healthz`
abbrev pub healthz : List (String × String)
healthz = ("status", "ok") ∷ []

-- The dict of `protected_resource_metadata_root`.
pub record ResourceMetadata : Type 0 where
  pub resource : String
  pub authorization_servers : List String
  pub bearer_methods_supported : List String

unfoldable pub protected_resource_metadata_root : Settings → ResourceMetadata
protected_resource_metadata_root settings = record {
  resource = settings.resource_server_url;
  authorization_servers = auth0_issuer settings ∷ [];
  bearer_methods_supported = "header" ∷ [];
}

-- `create_app`: the title and the version, the routes of FastAPI itself, and the mounted server.
pub record App : Type 0 where
  pub title : String
  pub version : String
  pub routes : List String
  pub mounted : FastMcp

unfoldable pub create_app : Settings → App
create_app settings = record {
  title = "Murray Context Ledger";
  version = "0.2.0";
  routes = "/healthz" ∷ "/.well-known/oauth-protected-resource" ∷ [];
  mounted = build_mcp settings;
}

-- The issuer that is advertised, in both forms of the metadata, is the one that tokens are decoded
-- for, and the resource is the same in both.
metadata-issuer :
    (settings : Settings)
    → ((protected_resource_metadata_root settings).authorization_servers
        ≡ (create_app settings).mounted.issuer_url ∷ [])
      × ((create_app settings).mounted.issuer_url ≡ (decode_options settings).issuer)
      × ((create_app settings).mounted.resource_server_url
          ≡ (protected_resource_metadata_root settings).resource)
unfolding protected_resource_metadata_root create_app build_mcp
metadata-issuer settings = (refl, refl, refl)
