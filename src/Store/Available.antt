-- ===== src/Store/Available.antt =====
-- A database that is up: it answers each statement, or refuses it with an SQL state (a policy, a text
-- that is no uuid to Postgres, a foreign key); and that of a unique violation comes from the insert
-- of a row whose key an index has, and from nothing else.
use murray_context_ledger_mc.Base.{◌≡◌, ◌⊎◌, inl, inr, String, ◌==◌, true, false, some, List, Has}
use murray_context_ledger_mc.Effect.{Result, ok, err, api_error}
use murray_context_ledger_mc.Effect.Answers.{IsAnswer}
use murray_context_ledger_mc.Db.{Client}
use murray_context_ledger_mc.Store.Rows.{FactRow, ClientRow, AuditRow}
use murray_context_ledger_mc.Store.Query.{
  FactFilter, FactQuery, FactInsert, FactPatch, ClientInsert,
}
use murray_context_ledger_mc.Store.Policy.{is_member_of}
use murray_context_ledger_mc.Store.Backend.{Backend, facts}
use murray_context_ledger_mc.Store.Laws.{SameKey}

abbrev pub Speaks : {A : Type 0} → Result A → Type 0
Speaks {A} r =
    ((a : A) × (r ≡ ok a))
    ⊎ ((code : String) × (r ≡ err (api_error code)) × ((code == "23505") ≡ false))

pub Speaks-IsAnswer : {A : Type 0} (r : Result A) → Speaks r → IsAnswer r
Speaks-IsAnswer r (inl (a, e)) = rw e tt
Speaks-IsAnswer r (inr (code, e, other)) = rw e other

pub record IsAvailable (B : Backend) : Type 0 where
  pub members_answer :
      (c : Client) (u : String) (s : B.State) → Speaks (B.select_memberships c u s).0
  pub seats_answer :
      (c : Client) (org oauth : String) (s : B.State) → Speaks (B.select_clients c org oauth s).0
  pub seat_answers :
      (c : Client) (i : ClientInsert) (sub : String) (s : B.State)
      → B.subject c ≡ some sub
      → is_member_of (B.tables s) sub i.org_id ≡ true
      → i.user_id ≡ sub
      → Speaks (B.insert_client c i s).0
        ⊎ (((B.insert_client c i s).0 ≡ err (api_error "23505"))
            × (r : ClientRow) × Has r (B.tables s).clients
            × (r.org_id ≡ i.org_id)
            × (r.oauth_client_id ≡ i.oauth_client_id))
  pub facts_answer : (c : Client) (q : FactQuery) (s : B.State) → Speaks (B.select_facts c q s).0
  pub count_answers : (c : Client) (q : FactQuery) (s : B.State) → Speaks (B.count_facts c q s).0
  pub fact_answers :
      (c : Client) (i : FactInsert) (sub : String) (s : B.State)
      → B.subject c ≡ some sub
      → is_member_of (B.tables s) sub i.org_id ≡ true
      → i.user_id ≡ sub
      → Speaks (B.insert_fact c i s).0
        ⊎ (((B.insert_fact c i s).0 ≡ err (api_error "23505"))
            × (r : FactRow) × Has r (facts B s)
            × SameKey i r)
  pub update_answers :
      (c : Client) (p : FactPatch) (fs : List FactFilter) (s : B.State)
      → Speaks (B.update_facts c p fs s).0
  pub audit_answers : (c : Client) (r : AuditRow) (s : B.State) → Speaks (B.insert_audit c r s).0
