-- ===== src/Store/Backend.antt =====
-- PostgREST and Postgres are no code of this repository: their calls are the fields of `Backend`,
-- over a state that is not known, and what the server relies on is `IsLawful`.
use murray_context_ledger_mc.Base.{
  ℕ, String, ◌==◌, Bool, true, false, Option, none, some, List, [], ◌∷◌, any, contains, ◌≡◌, ◌&&◌,
}
use murray_context_ledger_mc.Effect.{Exec}
use murray_context_ledger_mc.Schemas.{FactType, type_name, Float}
use murray_context_ledger_mc.Db.{Client}
use murray_context_ledger_mc.Store.Rows.{
  Tables, FactRow, ClientRow, Membership, AuditRow, SeatStatus, status_eq,
}
use murray_context_ledger_mc.Store.Query.{
  FactFilter, eq_id, eq_org_id, eq_dedupe_key, eq_type, eq_status, in_type, overlaps_scope_tags,
  ilike_content, text_search_content, FactQuery, FactInsert, FactPatch, ClientInsert,
}

pub record Backend : Type 1 where
  pub State : Type 0
  -- What the tables hold.
  pub tables : State → Tables
  -- `auth.jwt() ->> 'sub'` for the token of a client.
  pub subject : Client → Option String
  -- A uuid as Postgres prints it, from any text that it reads as that uuid.
  pub canonical : String → String
  -- A double as a column of type `real` gives it back.
  pub to_real : Float → Float
  -- `content ilike pattern`, and the full-text match of a query, its type and its configuration.
  pub ilike : String → String → Bool
  pub matches_text : String → String → String → String → Bool
  pub select_memberships : Client → String → Exec State (List Membership)
  pub select_clients : Client → String → String → Exec State (List ClientRow)
  pub insert_client : Client → ClientInsert → Exec State (List ClientRow)
  pub select_facts : Client → FactQuery → Exec State (List FactRow)
  pub count_facts : Client → FactQuery → Exec State (Option ℕ)
  pub insert_fact : Client → FactInsert → Exec State (List FactRow)
  pub update_facts : Client → FactPatch → List FactFilter → Exec State (List FactRow)
  pub insert_audit : Client → AuditRow → Exec State (Unit {0})

abbrev pub opt_eq : Option String → String → Bool
opt_eq none k = false
opt_eq (some j) k = j == k

abbrev pub type_eq : FactType → FactType → Bool
type_eq s t = type_name s == type_name t

module _ (B : Backend) where
  -- Whether a row meets a filter.
  abbrev pub holds : FactFilter → FactRow → Bool
  holds (eq_id v) r = r.id == B.canonical v
  holds (eq_org_id v) r = r.org_id == v
  holds (eq_dedupe_key v) r = opt_eq r.dedupe_key v
  holds (eq_type t) r = type_eq r.type t
  holds (eq_status st) r = status_eq r.status st
  holds (in_type ts) r = any (λ t. type_eq r.type t) ts
  holds (overlaps_scope_tags tags) r = any (λ t. contains tags t) r.scope_tags
  holds (ilike_content pattern) r = B.ilike r.content pattern
  holds (text_search_content query kind config) r = B.matches_text r.content query kind config

  abbrev pub holds_all : List FactFilter → FactRow → Bool
  holds_all [] r = true
  holds_all (f ∷ fs) r = holds f r && holds_all fs r

  abbrev pub facts : B.State → List FactRow
  facts s = (B.tables s).facts

  -- The row that an insert adds: the values given, and defaults of the schema for the others.
  pub record IsStamped (i : FactInsert) (r : FactRow) : Type 0 where
    pub org_id : r.org_id ≡ i.org_id
    pub user_id : r.user_id ≡ i.user_id
    pub type : r.type ≡ i.type
    pub content : r.content ≡ i.content
    pub confidence : r.confidence ≡ B.to_real i.confidence
    pub scope_tags : r.scope_tags ≡ i.scope_tags
    pub source : r.source ≡ i.source
    pub source_ref : r.source_ref ≡ i.source_ref
    pub status : r.status ≡ i.status
    pub dedupe_key : r.dedupe_key ≡ i.dedupe_key
    pub superseded_by : r.superseded_by ≡ none
    pub canonical : B.canonical r.id ≡ r.id

-- The defaults of `clients`: an active seat with no connector source, for personal and work.
pub record IsNewSeat (i : ClientInsert) (r : ClientRow) : Type 0 where
  pub org_id : r.org_id ≡ i.org_id
  pub user_id : r.user_id ≡ i.user_id
  pub oauth_client_id : r.oauth_client_id ≡ i.oauth_client_id
  pub display_name : r.display_name ≡ i.display_name
  pub granted_scopes : r.granted_scopes ≡ "personal" ∷ "work" ∷ []
  pub status : r.status ≡ SeatStatus.active
  pub connector_source : r.connector_source ≡ none

abbrev pub patch_row : FactPatch → FactRow → FactRow
patch_row p r = record r {
  status = p.status;
  superseded_by = elim p.superseded_by [ none ↦ r.superseded_by | some id ↦ some id ];
}
