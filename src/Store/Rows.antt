-- ===== src/Store/Rows.antt =====
-- The tables of supabase/migrations (0001 to 0004), as far as the server reads or writes them.
use murray_context_ledger_mc.Base.{String, Option, List, Bool, true, false}
use murray_context_ledger_mc.Schemas.{FactType, FactSource, Float}

-- CHECK of facts.status
pub data FactStatus : Type 0 where
  pending_review active superseded rejected archived : FactStatus

abbrev pub status_eq : FactStatus → FactStatus → Bool
status_eq FactStatus.pending_review FactStatus.pending_review = true
status_eq FactStatus.active FactStatus.active = true
status_eq FactStatus.superseded FactStatus.superseded = true
status_eq FactStatus.rejected FactStatus.rejected = true
status_eq FactStatus.archived FactStatus.archived = true
status_eq _ _ = false

-- CHECK of memberships.role
pub data Role : Type 0 where
  owner rep office : Role

-- CHECK of clients.status
pub data SeatStatus : Type 0 where
  active revoked : SeatStatus

-- The id and time columns hold the texts in which PostgREST prints them.
pub record FactRow : Type 0 where
  pub id : String
  pub org_id : String
  pub user_id : String
  pub type : FactType
  pub content : String
  pub confidence : Float
  pub scope_tags : List String
  pub source : FactSource
  pub source_ref : Option String
  pub status : FactStatus
  pub superseded_by : Option String
  pub dedupe_key : Option String
  pub first_seen : String
  pub last_seen : String
  pub created_at : String

pub record ClientRow : Type 0 where
  pub id : String
  pub org_id : String
  pub user_id : String
  pub oauth_client_id : String
  pub display_name : String
  pub granted_scopes : List String
  pub status : SeatStatus
  pub connector_source : Option String
  pub revoked_at : Option String
  pub created_at : String

pub record Membership : Type 0 where
  pub org_id : String
  pub user_id : String
  pub role : Role

pub record OrgRow : Type 0 where
  pub id : String
  pub name : String
  pub created_at : String

-- A row of audit_log, without the id and the time that Postgres adds.
pub record AuditRow : Type 0 where
  pub user_id : String
  pub org_id : String
  pub client_id : String
  pub tool : String
  pub payload_hash : String
  pub fact_ids : List String

pub record Tables : Type 0 where
  pub orgs : List OrgRow
  pub memberships : List Membership
  pub clients : List ClientRow
  pub facts : List FactRow
  pub audit_log : List AuditRow
