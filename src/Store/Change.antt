-- ===== src/Store/Change.antt =====
-- How the tables may change: what becomes of a row of `facts`, and what a caller leaves alone.
pub mod Facts
pub mod Others
use murray_context_ledger_mc.Base.{
  ◌≡◌, String, Bool, not, true, Option, none, some, List, [], ◌∷◌, ◌++◌, keep, Has, All, ◌⊎◌,
}
use murray_context_ledger_mc.Store.Rows.{Tables, FactRow, FactStatus, ClientRow, AuditRow}
use murray_context_ledger_mc.Store.Policy.{is_member_of}

-- What may become of a row, in any number of steps: a pending fact is decided on once, a fact that
-- was superseded stays so, and nothing else of a row ever changes.
pub data Became (r q : FactRow) : Type 0 where
  unchanged : q ≡ r → Became r q
  approved :
      r.status ≡ FactStatus.pending_review
      → q ≡ record r { status = FactStatus.active }
      → Became r q
  declined :
      r.status ≡ FactStatus.pending_review
      → q ≡ record r { status = FactStatus.rejected }
      → Became r q
  retired :
      (by : String)
      → q ≡ record r { status = FactStatus.superseded; superseded_by = some by }
      → Became r q

-- Only a fact that was superseded names the fact that took its place.
abbrev pub IsLinked : FactRow → Type 0
IsLinked r = (r.superseded_by ≡ none) ⊎ (r.status ≡ FactStatus.superseded)

-- Row by row, in the order in which they were inserted, and then the rows that joined.
abbrev pub Carried : List FactRow → List FactRow → Type 0
Carried [] new = All IsLinked new
Carried (r ∷ rs) [] = ⊥
Carried (r ∷ rs) (q ∷ qs) = Became r q × Carried rs qs

-- The primary key of `facts`.
abbrev pub UniqueIds : List FactRow → Type 0
UniqueIds facts = (r q : FactRow) → Has r facts → Has q facts → r.id ≡ q.id → r ≡ q

-- `facts_org_dedupe_idx`: no two rows of an org share a key.
abbrev pub UniqueKeys : List FactRow → Type 0
UniqueKeys facts =
    (r q : FactRow) (key : String)
    → Has r facts
    → Has q facts
    → r.dedupe_key ≡ some key
    → q.dedupe_key ≡ some key
    → r.org_id ≡ q.org_id
    → r ≡ q

-- A fact's history, from a table with unique ids.
pub record Evolved (before after : List FactRow) : Type 0 where
  pub carried : UniqueIds before → Carried before after
  pub unique_ids : UniqueIds before → UniqueIds after
  pub unique_keys : UniqueKeys before → UniqueKeys after

-- Of the rows of orgs that a user is no member of.
abbrev pub elsewhere : {A : Type 0} → Tables → String → (A → String) → List A → List A
elsewhere t sub org_of rows = keep (λ r. not (is_member_of t sub (org_of r))) rows

-- The audit log is only appended to, with rows that name the caller.
abbrev pub Logged : String → List AuditRow → List AuditRow → Type 0
Logged sub before after =
    (new : List AuditRow) × (after ≡ before ++ new) × All (λ r. r.user_id ≡ sub) new

-- What a caller can do to the tables.
pub record Changed (sub : String) (before after : Tables) : Type 0 where
  pub orgs : after.orgs ≡ before.orgs
  pub memberships : after.memberships ≡ before.memberships
  pub evolved : Evolved before.facts after.facts
  pub logged : Logged sub before.audit_log after.audit_log
  pub other_facts :
      elsewhere before sub (λ (r : FactRow). r.org_id) after.facts
      ≡ elsewhere before sub (λ (r : FactRow). r.org_id) before.facts
  pub other_clients :
      elsewhere before sub (λ (r : ClientRow). r.org_id) after.clients
      ≡ elsewhere before sub (λ (r : ClientRow). r.org_id) before.clients
  pub other_audit :
      elsewhere before sub (λ (r : AuditRow). r.org_id) after.audit_log
      ≡ elsewhere before sub (λ (r : AuditRow). r.org_id) before.audit_log
