-- ===== src/Server/Write/Answers.antt =====
-- `_insert_fact` on a database that is up.
use murray_context_ledger_mc.Base.{
  ◌≡◌, refl, sym, subst, String, ◌==◌, eq_iff, true, false, and_true, Option, none, some, List, [],
  ◌∷◌, Has, inl, inr,
}
use murray_context_ledger_mc.Effect.{Error, api_error}
use murray_context_ledger_mc.Effect.Answers.{IsAnswer, IsAnswer-then}
use murray_context_ledger_mc.Effect.Runs.{Runs-result}
use murray_context_ledger_mc.Schemas.{FactInput}
use murray_context_ledger_mc.Store.{FactRow, is_member_of}
use murray_context_ledger_mc.Store.Backend.{facts, holds_all}
use murray_context_ledger_mc.Store.Available.{IsAvailable, Speaks-IsAnswer}
use murray_context_ledger_mc.Server.Env.{Env, IsLawfulEnv}
use murray_context_ledger_mc.Server.Context.{ToolContext}
use murray_context_ledger_mc.Server.Write.{
  fact_row, key_query, first_created, first_existing, look_up_key, key_conflict, insert_fact,
}

module _ (E : Env) (L : IsLawfulEnv E) (A : IsAvailable E.backend) (ctx : ToolContext)
    (who : E.backend.subject ctx.db ≡ some ctx.user_sub) where
  first_existing-IsAnswer :
      (e : Error) (rows : List FactRow) (r : FactRow) (s : E.backend.State)
      → Has r rows
      → IsAnswer (first_existing E e rows s).0
  unfolding first_existing
  first_existing-IsAnswer e [] r s m = absurd m
  first_existing-IsAnswer e (x ∷ rows) r s m = tt

  keyed_row :
      (key : String) (r : FactRow)
      → r.org_id ≡ ctx.org_id
      → r.dedupe_key ≡ some key
      → holds_all E.backend (key_query ctx key).filters r ≡ true
  unfolding key_query
  keyed_row key r o k =
      and_true _ _ ((eq_iff r.org_id ctx.org_id).1 o)
        (and_true _ _ (rw k ((eq_iff key key).1 refl)) refl)

  -- The row that has the key already is found.
  conflict-IsAnswer :
      (key : String) (r : FactRow) (s : E.backend.State)
      → is_member_of (E.backend.tables s) ctx.user_sub ctx.org_id ≡ true
      → Has r (facts E.backend s)
      → r.org_id ≡ ctx.org_id
      → r.dedupe_key ≡ some key
      → IsAnswer (key_conflict E ctx (some key) (api_error "23505") s).0
  unfolding key_conflict look_up_key key_query
  conflict-IsAnswer key r s member m o k =
      let look = E.backend.select_facts ctx.db (key_query ctx key) in
      IsAnswer-then look (first_existing E (api_error "23505")) s
        (Speaks-IsAnswer (look s).0 (A.facts_answer ctx.db (key_query ctx key) s))
        (λ rows u ran. first_existing-IsAnswer (api_error "23505") rows r u (
          L.lawful.on_facts.select_complete ctx.db (key_query ctx key) s ctx.user_sub rows r who
            (Runs-result look s rows u ran) refl refl m (rw o member) (keyed_row key r o k)))

  -- Any other error is passed on.
  other-IsAnswer :
      (key : Option String) (code : String) (s : E.backend.State)
      → (code == "23505") ≡ false
      → IsAnswer (key_conflict E ctx key (api_error code) s).0
  unfolding key_conflict
  other-IsAnswer none code s other = other
  other-IsAnswer (some key) code s other = rw other other

  pub insert_fact-IsAnswer :
      (fact : FactInput) (s : E.backend.State)
      → is_member_of (E.backend.tables s) ctx.user_sub ctx.org_id ≡ true
      → IsAnswer (insert_fact E ctx fact s).0
  unfolding insert_fact first_created fact_row
  insert_fact-IsAnswer fact s member =
      elim (A.fact_answers ctx.db (fact_row ctx fact) ctx.user_sub s who member refl) [
        | inl (inr (code, e, other)) ↦ rw e (other-IsAnswer fact.dedupe_key code _ other)
        | inl (inl (rows, e)) ↦
            let (new, one, _, _, _, _) =
              L.lawful.on_facts.insert_accepted ctx.db (fact_row ctx fact) s ctx.user_sub rows who
                e in
            rw (e, one) tt
        | inr (e, r, m, (key, keyed, k, o)) ↦
            let after = (E.backend.insert_fact ctx.db (fact_row ctx fact) s).1 in
            let same = L.lawful.on_facts.insert_refused ctx.db (fact_row ctx fact) s "23505" e in
            rw e (
              subst (λ k. IsAnswer (key_conflict E ctx k (api_error "23505") after).0) (sym keyed)
                (subst (λ u. IsAnswer (key_conflict E ctx (some key) (api_error "23505") u).0)
                  (sym same) (conflict-IsAnswer key r s member m o k)))
      ]
