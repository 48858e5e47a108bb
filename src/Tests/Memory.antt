-- ===== src/Tests/Memory.antt =====
-- A database in memory: one concrete value of the parameter `Backend`, for runs of the model.
use murray_context_ledger_mc.Base.{
  ℕ, zero, suc, String, ◌<>◌, ◌==◌, Bool, true, false, not, ◌&&◌, ◌||◌, Option, none, some, List,
  [], ◌∷◌, ◌++◌, map, keep, any, eqb, take, length, if◌then◌else◌,
}
use murray_context_ledger_mc.Effect.{Result, ok, err, api_error}
use murray_context_ledger_mc.Uuid.{codes}
use murray_context_ledger_mc.Db.{Client}
use murray_context_ledger_mc.Store.{
  Tables, FactRow, ClientRow, SeatStatus, FactFilter, FactQuery, FactInsert, FactPatch,
  ClientInsert, facts_select_org, facts_update_org, facts_insert_org, clients_select_org,
  clients_insert_org, audit_insert_org, memberships_select_self,
}
use murray_context_ledger_mc.Store.Backend.{Backend, opt_eq, holds_all, patch_row}

-- A statement: carried out, or refused with an SQL state.
module _ {A : Type 0} where
  abbrev pub outcome : Bool → String → A → Tables → Tables → Result A × Tables
  outcome true code a after before = (ok a, after)
  outcome false code a after before = (err (api_error code), before)

abbrev pub after : ℕ → String → String
after zero s = s
after (suc n) String.[] = ""
after (suc n) (String.◌∷◌ c s) = after n s

-- The tokens of this database are the subjects themselves, behind "Bearer ".
abbrev pub subject_of : Client → Option String
subject_of c = elim c.authorization [ none ↦ none | some header ↦ some (after 7 header) ]

abbrev pub known : Option String → Bool
known none = false
known (some sub) = true

abbrev pub name : Option String → String
name none = ""
name (some sub) = sub

abbrev pub caller : Client → String
caller c = name (subject_of c)

abbrev pub first : Option ℕ → List FactRow → List FactRow
first none rows = rows
first (some n) rows = take n rows

abbrev pub same_key : FactInsert → FactRow → Bool
same_key i r = elim i.dedupe_key [
  | none ↦ false
  | some k ↦ opt_eq r.dedupe_key k && r.org_id == i.org_id
]

-- An id that is longer than those of the rows.
unfoldable pub fresh_id : List FactRow → String
fresh_id [] = "f"
fresh_id (r ∷ rs) = r.id <> fresh_id rs

abbrev pub stamp : FactInsert → List FactRow → FactRow
stamp i rs = record {
  id = fresh_id rs;
  org_id = i.org_id;
  user_id = i.user_id;
  type = i.type;
  content = i.content;
  confidence = i.confidence;
  scope_tags = i.scope_tags;
  source = i.source;
  source_ref = i.source_ref;
  status = i.status;
  superseded_by = none;
  dedupe_key = i.dedupe_key;
  first_seen = "2026-01-01T00:00:00+00:00";
  last_seen = "2026-01-01T00:00:00+00:00";
  created_at = "2026-01-01T00:00:00+00:00";
}

abbrev pub seat_row : ClientInsert → ClientRow
seat_row i = record {
  id = i.oauth_client_id;
  org_id = i.org_id;
  user_id = i.user_id;
  oauth_client_id = i.oauth_client_id;
  display_name = i.display_name;
  granted_scopes = "personal" ∷ "work" ∷ [];
  status = SeatStatus.active;
  connector_source = none;
  revoked_at = none;
  created_at = "2026-01-01T00:00:00+00:00";
}

-- What filters read: ids are stored as they are written, a text matches itself.
abbrev pub closed : Backend
closed = record {
  State = Tables;
  tables = λ t. t;
  subject = subject_of;
  canonical = λ id. id;
  to_real = λ x. x;
  ilike = λ content pattern. pattern == "%" <> (content <> "%");
  matches_text = λ content query kind config. content == query;
  select_memberships = λ c u t. (err (api_error "42501"), t);
  select_clients = λ c org oauth t. (err (api_error "42501"), t);
  insert_client = λ c i t. (err (api_error "42501"), t);
  select_facts = λ c q t. (err (api_error "42501"), t);
  count_facts = λ c q t. (err (api_error "42501"), t);
  insert_fact = λ c i t. (err (api_error "42501"), t);
  update_facts = λ c p fs t. (err (api_error "42501"), t);
  insert_audit = λ c r t. (err (api_error "42501"), t);
}

abbrev pub visible : Tables → String → List FactFilter → FactRow → Bool
visible t sub fs r = facts_select_org t sub r && holds_all closed fs r

abbrev pub answer : Client → FactQuery → Tables → List FactRow
answer c q t = first q.limit (keep (visible t (caller c) q.filters) t.facts)

abbrev pub clash : FactInsert → FactRow → FactRow → Bool
clash i new r = same_key i r || r.id == new.id

-- Postgres takes no text with the code point 0.
abbrev pub has_nul : String → Bool
has_nul s = any (λ c. eqb c 0) (codes s)

-- The SQL state with which a row is refused.
abbrev pub refusal : FactInsert → String
refusal i = if has_nul i.content then "22P05" else "23505"

abbrev pub may_insert : Client → FactInsert → Tables → Bool
may_insert c i t =
    let new = stamp i t.facts in
    (known (subject_of c) && not (has_nul i.content))
    && (facts_insert_org t (caller c) new && not (any (clash i new) t.facts))

abbrev pub patched : Client → FactPatch → List FactFilter → Tables → List FactRow
patched c p fs t =
    map (λ r. if facts_update_org t (caller c) r && holds_all closed fs r then patch_row p r else r)
      t.facts

abbrev pub may_see_seat : Client → String → String → Tables → ClientRow → Bool
may_see_seat c org oauth t r =
    clients_select_org t (caller c) r && (r.org_id == org && r.oauth_client_id == oauth)

-- `writable` tells whether its role has the grant to update facts.
abbrev pub memory_with : Bool → Backend
memory_with writable = record closed {
  select_memberships = λ c u t.
      outcome (known (subject_of c)) "42501"
        (keep (λ m. memberships_select_self (caller c) m && m.user_id == u) t.memberships) t t;
  select_clients = λ c org oauth t.
      outcome (known (subject_of c)) "42501" (keep (may_see_seat c org oauth t) t.clients) t t;
  insert_client = λ c i t.
      outcome (known (subject_of c) && clients_insert_org t (caller c) (seat_row i)) "42501"
        (seat_row i ∷ []) (record t { clients = t.clients ++ (seat_row i ∷ []) }) t;
  select_facts = λ c q t. outcome (known (subject_of c)) "42501" (answer c q t) t t;
  count_facts = λ c q t. outcome (known (subject_of c)) "42501" (some (length (answer c q t))) t t;
  insert_fact = λ c i t.
      outcome (may_insert c i t) (refusal i) (stamp i t.facts ∷ [])
        (record t { facts = t.facts ++ (stamp i t.facts ∷ []) }) t;
  update_facts = λ c p fs t.
      outcome (writable && known (subject_of c)) "42501" (patched c p fs t)
        (record t { facts = patched c p fs t }) t;
  insert_audit = λ c r t.
      outcome (known (subject_of c) && audit_insert_org t (caller c) r) "42501" tt
        (record t {
          audit_log = t.audit_log ++ (record r { fact_ids = map (λ id. id) r.fact_ids } ∷ []);
        })
        t;
}

abbrev pub memory : Backend
memory = memory_with true
