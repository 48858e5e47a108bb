-- ===== src/Store/Query.antt =====
-- What the server asks of PostgREST, as data: the calls of a query builder, in typed form.
use murray_context_ledger_mc.Base.{ℕ, String, Option, List}
use murray_context_ledger_mc.Schemas.{FactType, FactSource, Float}
use murray_context_ledger_mc.Store.Rows.{FactStatus}

pub data FactFilter : Type 0 where
  eq_id eq_org_id eq_dedupe_key : String → FactFilter
  eq_type : FactType → FactFilter
  eq_status : FactStatus → FactFilter
  in_type : List FactType → FactFilter
  overlaps_scope_tags : List String → FactFilter
  ilike_content : String → FactFilter
  -- `text_search("content", query, {"type": …, "config": …})`
  text_search_content : String → String → String → FactFilter

pub data Order : Type 0 where
  asc desc : String → Order

pub record FactQuery : Type 0 where
  pub columns : String
  pub filters : List FactFilter
  pub orders : List Order
  pub limit : Option ℕ

-- The dict that `_fact_row` builds.
pub record FactInsert : Type 0 where
  pub org_id : String
  pub user_id : String
  pub type : FactType
  pub content : String
  pub confidence : Float
  pub scope_tags : List String
  pub source : FactSource
  pub status : FactStatus
  pub source_ref : Option String
  pub dedupe_key : Option String

-- The dict of an update; `none` is a key that is not set.
pub record FactPatch : Type 0 where
  pub superseded_by : Option String
  pub status : FactStatus

-- The dict of `_resolve_client`.
pub record ClientInsert : Type 0 where
  pub org_id : String
  pub user_id : String
  pub oauth_client_id : String
  pub display_name : String
