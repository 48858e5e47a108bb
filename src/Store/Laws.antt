-- ===== src/Store/Laws.antt =====
-- What the server relies on in PostgREST and Postgres, for requests that carry a caller's token.
-- The visible rows are those of the policies; a refused statement changes nothing; a call that
-- fails otherwise (a lost connection) may have been carried out.
use murray_context_ledger_mc.Base.{
  ◌⊎◌, ℕ, String, Bool, true, false, Option, none, some, List, [], ◌∷◌, ◌++◌, map, keep, ◌==◌,
  length, Has, All, ◌≤◌, ◌≡◌, ◌≢◌, ◌&&◌, if◌then◌else◌,
}
use murray_context_ledger_mc.Effect.{Error, ok, err, api_error}
use murray_context_ledger_mc.Db.{Client}
use murray_context_ledger_mc.Store.Rows.{Tables, FactRow, ClientRow, Membership, AuditRow}
use murray_context_ledger_mc.Store.Query.{
  FactFilter, eq_id, eq_org_id, eq_dedupe_key, eq_type, eq_status, in_type, overlaps_scope_tags,
  ilike_content, text_search_content, FactQuery, FactInsert, FactPatch, ClientInsert,
}
use murray_context_ledger_mc.Store.Policy.{
  facts_select_org, facts_update_org, facts_insert_org, clients_select_org, clients_insert_org,
  audit_insert_org, memberships_select_self,
}
use murray_context_ledger_mc.Store.Backend.{
  Backend, facts, holds_all, IsStamped, IsNewSeat, patch_row,
}

-- Two rows that `facts_org_dedupe_idx` keeps apart: one org, one key that is not null.
abbrev pub SameKey : FactInsert → FactRow → Type 0
SameKey i r =
    (k : String) × (i.dedupe_key ≡ some k) × (r.dedupe_key ≡ some k) × (r.org_id ≡ i.org_id)

-- Queries for one id or one key. PostgREST cuts the answer of any other off at `max_rows` of
-- supabase/config.toml, so only these are relied on to miss no row.
abbrev pub names_row : List FactFilter → Bool
names_row [] = false
names_row (eq_id id ∷ fs) = true
names_row (eq_dedupe_key key ∷ fs) = true
names_row (eq_org_id org ∷ fs) = names_row fs
names_row (eq_type type ∷ fs) = names_row fs
names_row (eq_status status ∷ fs) = names_row fs
names_row (in_type types ∷ fs) = names_row fs
names_row (overlaps_scope_tags tags ∷ fs) = names_row fs
names_row (ilike_content pattern ∷ fs) = names_row fs
names_row (text_search_content query kind config ∷ fs) = names_row fs

module _ (B : Backend) where
  abbrev pub Answer : Tables → String → FactQuery → List FactRow → Type 0
  Answer t sub q rows =
      All
        (λ r. Has r t.facts × (facts_select_org t sub r ≡ true) × (holds_all B q.filters r ≡ true))
        rows

  abbrev pub Within : Option ℕ → List FactRow → Type 0
  Within none rows = Unit
  Within (some n) rows = length rows ≤ n

  pub record FactLaws : Type 0 where
    pub select_keeps : (c : Client) (q : FactQuery) (s : B.State) → (B.select_facts c q s).1 ≡ s
    pub select_sound :
        (c : Client) (q : FactQuery) (s : B.State) (sub : String) (rows : List FactRow)
        → B.subject c ≡ some sub
        → (B.select_facts c q s).0 ≡ ok rows
        → Answer (B.tables s) sub q rows
    pub select_complete :
        (c : Client) (q : FactQuery) (s : B.State) (sub : String) (rows : List FactRow)
        (r : FactRow)
        → B.subject c ≡ some sub
        → (B.select_facts c q s).0 ≡ ok rows
        → q.limit ≡ none
        → names_row q.filters ≡ true
        → Has r (B.tables s).facts
        → facts_select_org (B.tables s) sub r ≡ true
        → holds_all B q.filters r ≡ true
        → Has r rows
    pub select_limit :
        (c : Client) (q : FactQuery) (s : B.State) (rows : List FactRow)
        → (B.select_facts c q s).0 ≡ ok rows
        → Within q.limit rows
    pub count_keeps : (c : Client) (q : FactQuery) (s : B.State) → (B.count_facts c q s).1 ≡ s
    -- `count="exact"`
    pub count_exact :
        (c : Client) (q : FactQuery) (s : B.State) (sub : String) (n : Option ℕ)
        → B.subject c ≡ some sub
        → (B.count_facts c q s).0 ≡ ok n
        → q.limit ≡ none
        → n
          ≡ some (
              length (
                keep
                  (λ r. facts_select_org (B.tables s) sub r && holds_all B q.filters r)
                  (B.tables s).facts))
    pub insert_frame :
        (c : Client) (i : FactInsert) (s : B.State)
        → B.tables (B.insert_fact c i s).1
          ≡ record (B.tables s) { facts = facts B (B.insert_fact c i s).1 }
    pub insert_accepted :
        (c : Client) (i : FactInsert) (s : B.State) (sub : String) (rows : List FactRow)
        → B.subject c ≡ some sub
        → (B.insert_fact c i s).0 ≡ ok rows
        → (new : FactRow) × (rows ≡ new ∷ [])
          × (facts B (B.insert_fact c i s).1 ≡ facts B s ++ (new ∷ []))
          × IsStamped B i new
          × (facts_insert_org (B.tables s) sub new ≡ true)
          × All (λ r. r.id ≢ new.id) (facts B s)
    pub insert_unique :
        (c : Client) (i : FactInsert) (s : B.State) (r : FactRow) (rows : List FactRow)
        → Has r (facts B s)
        → SameKey i r
        → (B.insert_fact c i s).0 ≢ ok rows
    -- A call that failed has been carried out as a whole or not at all.
    pub insert_failed :
        (c : Client) (i : FactInsert) (s : B.State) (sub : String) (e : Error)
        → B.subject c ≡ some sub
        → (B.insert_fact c i s).0 ≡ err e
        → (facts B (B.insert_fact c i s).1 ≡ facts B s)
          ⊎ ((new : FactRow) × (facts B (B.insert_fact c i s).1 ≡ facts B s ++ (new ∷ []))
              × IsStamped B i new
              × (facts_insert_org (B.tables s) sub new ≡ true)
              × All (λ r. r.id ≢ new.id) (facts B s)
              × ((r : FactRow) → Has r (facts B s) → SameKey i r → ⊥))
    pub insert_refused :
        (c : Client) (i : FactInsert) (s : B.State) (code : String)
        → (B.insert_fact c i s).0 ≡ err (api_error code)
        → (B.insert_fact c i s).1 ≡ s
    pub update_frame :
        (c : Client) (p : FactPatch) (fs : List FactFilter) (s : B.State)
        → B.tables (B.update_facts c p fs s).1
          ≡ record (B.tables s) { facts = facts B (B.update_facts c p fs s).1 }
    pub update_accepted :
        (c : Client) (p : FactPatch) (fs : List FactFilter) (s : B.State) (sub : String)
        (rows : List FactRow)
        → B.subject c ≡ some sub
        → (B.update_facts c p fs s).0 ≡ ok rows
        → facts B (B.update_facts c p fs s).1
          ≡ map
              (λ r.
                if facts_update_org (B.tables s) sub r && holds_all B fs r
                then patch_row p r
                else r)
              (facts B s)
    pub update_failed :
        (c : Client) (p : FactPatch) (fs : List FactFilter) (s : B.State) (sub : String) (e : Error)
        → B.subject c ≡ some sub
        → (B.update_facts c p fs s).0 ≡ err e
        → (facts B (B.update_facts c p fs s).1 ≡ facts B s)
          ⊎ (facts B (B.update_facts c p fs s).1
              ≡ map
                  (λ r.
                    if facts_update_org (B.tables s) sub r && holds_all B fs r
                    then patch_row p r
                    else r)
                  (facts B s))
    pub update_refused :
        (c : Client) (p : FactPatch) (fs : List FactFilter) (s : B.State) (code : String)
        → (B.update_facts c p fs s).0 ≡ err (api_error code)
        → (B.update_facts c p fs s).1 ≡ s

  pub record SeatLaws : Type 0 where
    pub members_keep : (c : Client) (u : String) (s : B.State) → (B.select_memberships c u s).1 ≡ s
    pub members_sound :
        (c : Client) (u : String) (s : B.State) (sub : String) (rows : List Membership)
        → B.subject c ≡ some sub
        → (B.select_memberships c u s).0 ≡ ok rows
        → All
            (λ m.
              Has m (B.tables s).memberships
              × (memberships_select_self sub m ≡ true)
              × (m.user_id ≡ u))
            rows
    pub members_complete :
        (c : Client) (u : String) (s : B.State) (sub : String) (rows : List Membership)
        → B.subject c ≡ some sub
        → (B.select_memberships c u s).0 ≡ ok rows
        → length rows
          ≡ length
              (keep (λ m. memberships_select_self sub m && m.user_id == u) (B.tables s).memberships)
    pub seats_keep :
        (c : Client) (org oauth : String) (s : B.State) → (B.select_clients c org oauth s).1 ≡ s
    pub seats_sound :
        (c : Client) (org oauth : String) (s : B.State) (sub : String) (rows : List ClientRow)
        → B.subject c ≡ some sub
        → (B.select_clients c org oauth s).0 ≡ ok rows
        → All
            (λ r.
              Has r (B.tables s).clients
              × (clients_select_org (B.tables s) sub r ≡ true)
              × (r.org_id ≡ org)
              × (r.oauth_client_id ≡ oauth))
            rows
    pub seats_complete :
        (c : Client) (org oauth : String) (s : B.State) (sub : String) (rows : List ClientRow)
        (r : ClientRow)
        → B.subject c ≡ some sub
        → (B.select_clients c org oauth s).0 ≡ ok rows
        → Has r (B.tables s).clients
        → clients_select_org (B.tables s) sub r ≡ true
        → r.org_id ≡ org
        → r.oauth_client_id ≡ oauth
        → Has r rows
    pub seat_frame :
        (c : Client) (i : ClientInsert) (s : B.State)
        → B.tables (B.insert_client c i s).1
          ≡ record (B.tables s) { clients = (B.tables (B.insert_client c i s).1).clients }
    pub seat_accepted :
        (c : Client) (i : ClientInsert) (s : B.State) (sub : String) (rows : List ClientRow)
        → B.subject c ≡ some sub
        → (B.insert_client c i s).0 ≡ ok rows
        → (new : ClientRow) × (rows ≡ new ∷ [])
          × ((B.tables (B.insert_client c i s).1).clients ≡ (B.tables s).clients ++ (new ∷ []))
          × IsNewSeat i new
          × (clients_insert_org (B.tables s) sub new ≡ true)
    pub seat_failed :
        (c : Client) (i : ClientInsert) (s : B.State) (sub : String) (e : Error)
        → B.subject c ≡ some sub
        → (B.insert_client c i s).0 ≡ err e
        → ((B.tables (B.insert_client c i s).1).clients ≡ (B.tables s).clients)
          ⊎ ((new : ClientRow) × ((B.tables (B.insert_client c i s).1).clients
                ≡ (B.tables s).clients ++ (new ∷ []))
              × IsNewSeat i new
              × (clients_insert_org (B.tables s) sub new ≡ true))
    pub seat_refused :
        (c : Client) (i : ClientInsert) (s : B.State) (code : String)
        → (B.insert_client c i s).0 ≡ err (api_error code)
        → (B.insert_client c i s).1 ≡ s

  -- The ids of an audit row are uuids, which Postgres stores in their canonical form.
  abbrev pub stored : AuditRow → AuditRow
  stored r = record r { fact_ids = map B.canonical r.fact_ids }

  pub record AuditLaws : Type 0 where
    pub audit_frame :
        (c : Client) (r : AuditRow) (s : B.State)
        → B.tables (B.insert_audit c r s).1
          ≡ record (B.tables s) { audit_log = (B.tables (B.insert_audit c r s).1).audit_log }
    pub audit_accepted :
        (c : Client) (r : AuditRow) (s : B.State) (sub : String)
        → B.subject c ≡ some sub
        → (B.insert_audit c r s).0 ≡ ok tt
        → ((B.tables (B.insert_audit c r s).1).audit_log
            ≡ (B.tables s).audit_log ++ (stored r ∷ []))
          × (audit_insert_org (B.tables s) sub r ≡ true)
    pub audit_failed :
        (c : Client) (r : AuditRow) (s : B.State) (sub : String) (e : Error)
        → B.subject c ≡ some sub
        → (B.insert_audit c r s).0 ≡ err e
        → ((B.tables (B.insert_audit c r s).1).audit_log ≡ (B.tables s).audit_log)
          ⊎ (((B.tables (B.insert_audit c r s).1).audit_log
                ≡ (B.tables s).audit_log ++ (stored r ∷ []))
              × (audit_insert_org (B.tables s) sub r ≡ true))
    pub audit_refused :
        (c : Client) (r : AuditRow) (s : B.State) (code : String)
        → (B.insert_audit c r s).0 ≡ err (api_error code)
        → (B.insert_audit c r s).1 ≡ s

  pub record IsLawful : Type 0 where
    pub on_facts : FactLaws
    pub on_seats : SeatLaws
    pub on_audit : AuditLaws
