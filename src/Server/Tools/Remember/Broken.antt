-- ===== src/Server/Tools/Remember/Broken.antt =====
-- A batch of `remember_facts` that Postgres breaks off.
use murray_context_ledger_mc.Base.{
  ℕ, ◌+◌, ◌≡◌, refl, sym, ap, ◌∙◌, String, ◌==◌, false, List, [], ◌∷◌, ◌++◌, All,
}
use murray_context_ledger_mc.Effect.{Error, api_error, Result, err}
use murray_context_ledger_mc.Effect.Runs.{Runs, Runs-bind, Runs-pure}
use murray_context_ledger_mc.Json.{Json, array, object, field, end}
use murray_context_ledger_mc.Schemas.{FactInput}
use murray_context_ledger_mc.Store.{Tables, FactRow}
use murray_context_ledger_mc.Server.Env.{Env, IsLawfulEnv, valid}
use murray_context_ledger_mc.Server.Context.{ToolContext, begin}
use murray_context_ledger_mc.Server.Context.Begin.{begin_returned}
use murray_context_ledger_mc.Server.Write.{unique_violation, fact_row, insert_fact}
use murray_context_ledger_mc.Server.Write.Refused.{insert_fact_refused}
use murray_context_ledger_mc.Server.Tools.Remember.{
  Tally, empty, items_of, remember_one, remember_loop, remember_facts,
}
use murray_context_ledger_mc.Server.Tools.Remember.Progress.{MadeFrom}
use murray_context_ledger_mc.Server.Tools.Remember.Batch.{remember_loop_returned}

module _ (E : Env) where
  -- Where the loop has done with some facts and the next insert raises, the loop raises.
  remember_loop_broken :
      (ctx : ToolContext) (done : List Json) (raw : Json) (rest : List Json) (f : FactInput)
      (e : Error) (index : ℕ) (t : Tally) (s : E.backend.State) (t' : Tally) (u v : E.backend.State)
      → Runs (remember_loop E ctx index done t) s t' u
      → E.model_validate raw ≡ valid f
      → insert_fact E ctx f u ≡ (err e, v)
      → remember_loop E ctx index (done ++ (raw ∷ rest)) t s ≡ (err e, v)
  unfolding remember_loop remember_one
  remember_loop_broken ctx [] raw rest f e index t s t' u v went sent broke =
      let (_, same) = Runs-pure t s t' u went in rw sent (rw same (rw broke refl))
  remember_loop_broken ctx (x ∷ done) raw rest f e index t s t' u v went sent broke =
      let (mid, w, one, others) =
        Runs-bind (remember_one E ctx index t (E.model_validate x))
          (λ m. remember_loop E ctx (index + 1) done m) s t' u went in
      rw one (remember_loop_broken ctx done raw rest f e (index + 1) mid w t' u v others sent broke)

module _ (E : Env) (L : IsLawfulEnv E) where
  -- A batch of which some facts are done when Postgres refuses the next one, for another reason
  -- than a taken key: `remember_facts` raises that error. The rows of the facts that were done are
  -- stored, and the audit log is as it was before the call.
  pub remember_facts_broken :
      (done : List Json) (raw : Json) (rest : List Json) (f : FactInput) (code : String)
      (ctx : ToolContext) (t : Tally) (s u v w : E.backend.State)
      → Runs
          (begin E "remember_facts"
            (object (field "facts" (array (items_of (done ++ (raw ∷ rest)))) end)))
          s
          ctx
          u
      → Runs (remember_loop E ctx 0 done empty) u t v
      → E.model_validate raw ≡ valid f
      → (code == unique_violation) ≡ false
      → E.backend.insert_fact ctx.db (fact_row ctx f) v ≡ (err (api_error code), w)
      → (remember_facts E (done ++ (raw ∷ rest)) s ≡ (err (api_error code), v))
        × ((E.backend.tables v).audit_log ≡ (E.backend.tables s).audit_log)
        × (news : List FactRow) × All (MadeFrom E ctx done) news
        × ((E.backend.tables v).facts ≡ (E.backend.tables s).facts ++ news)
  unfolding remember_facts
  remember_facts_broken done raw rest f code ctx t s u v w began looped sent other refused =
      let args = object (field "facts" (array (items_of (done ++ (raw ∷ rest)))) end) in
      let b = begin_returned E L "remember_facts" args s ctx u began in
      let p = remember_loop_returned E L ctx b.subject done 0 empty u t v looped in
      let B = E.backend in
      let same : w ≡ v =
        sym (ap (λ (x : Result (List FactRow) × B.State). x.1) refused)
        ∙ L.lawful.on_facts.insert_refused ctx.db (fact_row ctx f) v code
            (ap (λ (x : Result (List FactRow) × B.State). x.0) refused) in
      let stops =
        remember_loop_broken E ctx done raw rest f (api_error code) 0 empty u t v w looped sent
          (insert_fact_refused E ctx f code v w other refused) in
      (
        rw began (rw stops (λ i. (err (api_error code), same i))),
        ap (λ (x : Tables). x.audit_log) p.grown ∙ ap (λ (x : Tables). x.audit_log) b.frame,
        p.news,
        p.made,
        ap (λ (x : Tables). x.facts) p.grown
            ∙ ap (λ (fs : List FactRow). fs ++ p.news) (ap (λ (x : Tables). x.facts) b.frame),
      )
