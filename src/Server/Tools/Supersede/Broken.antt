-- ===== src/Server/Tools/Supersede/Broken.antt =====
-- A supersession of which Postgres refuses the second write.
use murray_context_ledger_mc.Base.{
  ◌≡◌, sym, ap, ◌∙◌, subst, String, true, and_left, List, [], ◌∷◌, Has, Has-append_left, eq_iff,
}
use murray_context_ledger_mc.Effect.{api_error, Result, err}
use murray_context_ledger_mc.Effect.Runs.{Runs}
use murray_context_ledger_mc.Json.{Json}
use murray_context_ledger_mc.Schemas.{FactInput}
use murray_context_ledger_mc.Uuid.{is_uuid}
use murray_context_ledger_mc.Store.{Tables, FactRow, eq_id}
use murray_context_ledger_mc.Store.Returned.{select_facts_returned}
use murray_context_ledger_mc.Server.Env.{Env, IsLawfulEnv, valid}
use murray_context_ledger_mc.Server.Context.{ToolContext, begin}
use murray_context_ledger_mc.Server.Context.Begin.{begin_returned}
use murray_context_ledger_mc.Server.Write.{Outcome, insert_fact}
use murray_context_ledger_mc.Server.Write.Inserted.{Inserted, fresh, existing, insert_fact_returned}
use murray_context_ledger_mc.Server.Tools.Supersede.{
  target_query, retire, replace_fact, if_target, if_valid, supersede_as, supersede_fact,
}
use murray_context_ledger_mc.Server.Tools.Supersede.Outcomes.{supersede_arguments}

module _ (E : Env) (ctx : ToolContext) (fact : FactInput) (o : Outcome) (id : String) where
  -- An insert takes no row away, and does not audit.
  Inserted-Has :
      (before after : Tables) (r : FactRow)
      → Inserted E ctx fact o id before after
      → Has r before.facts
      → Has r after.facts
  Inserted-Has before after r (fresh new _ _ grown _ _ _) m =
      rw grown (Has-append_left r before.facts (new ∷ []) m)
  Inserted-Has before after r (existing q key _ _ same _ _ _) m = rw same m

  Inserted-audit_log :
      (before after : Tables)
      → Inserted E ctx fact o id before after
      → after.audit_log ≡ before.audit_log
  Inserted-audit_log before after (fresh new _ _ grown _ _ _) =
      ap (λ (t : Tables). t.audit_log) grown
  Inserted-audit_log before after (existing q key _ _ same _ _ _) =
      ap (λ (t : Tables). t.audit_log) same

module _ (E : Env) (L : IsLawfulEnv E) (old : String) (raw : Json) (fact : FactInput) where
  -- If `supersede_fact` has found the old fact and has inserted the new one, and Postgres then
  -- refuses to retire the old fact, the call raises that error, and is not undone: the new fact (or
  -- the one with its key) stays stored, the old fact stands beside it as it was, and the audit log
  -- is as it was before the call.
  pub supersede_fact_broken :
      (code : String) (ctx : ToolContext) (r : FactRow) (rows : List FactRow) (o : Outcome × String)
      (s u v w x : E.backend.State)
      → is_uuid old ≡ true
      → E.model_validate raw ≡ valid fact
      → Runs (begin E "supersede_fact" (supersede_arguments old raw)) s ctx u
      → Runs (E.backend.select_facts ctx.db (target_query old)) u (r ∷ rows) v
      → Runs (insert_fact E ctx fact) v o w
      → E.backend.update_facts ctx.db (retire o.1) (eq_id old ∷ []) w ≡ (err (api_error code), x)
      → (supersede_fact E old raw s ≡ (err (api_error code), w))
        × ((E.backend.tables w).audit_log ≡ (E.backend.tables s).audit_log)
        × (mid : Tables) × (mid.facts ≡ (E.backend.tables s).facts)
        × Inserted E ctx fact o.0 o.1 mid (E.backend.tables w)
        × (r.id ≡ E.backend.canonical old)
        × Has r (E.backend.tables s).facts
        × Has r (E.backend.tables w).facts
  unfolding supersede_fact supersede_as if_valid if_target replace_fact target_query
  supersede_fact_broken code ctx r rows o s u v w x good sent began found stored refused =
      let B = E.backend in
      let b = begin_returned E L "supersede_fact" (supersede_arguments old raw) s ctx u began in
      let (kept, sound) =
        select_facts_returned B L.lawful ctx.db (target_query old) ctx.user_sub u (r ∷ rows) v
          b.subject found in
      let put = insert_fact_returned E L.lawful ctx fact b.subject v o w stored in
      let put_in_mid : Inserted E ctx fact o.0 o.1 (B.tables u) (B.tables w) = rw kept at put in
      let undone : x ≡ w =
        sym (ap (λ (p : Result (List FactRow) × B.State). p.1) refused)
        ∙ L.lawful.on_facts.update_refused ctx.db (retire o.1) (eq_id old ∷ []) w code
            (ap (λ (p : Result (List FactRow) × B.State). p.0) refused) in
      let facts_same : (B.tables u).facts ≡ (B.tables s).facts =
        ap (λ (t : Tables). t.facts) b.frame in
      let (m, policy, named) = sound.0 in
      (
        rw began (
            rw good (
              rw sent (rw found (rw stored (rw refused (λ i. (err (api_error code), undone i))))))),
        Inserted-audit_log E ctx fact o.0 o.1 (B.tables u) (B.tables w) put_in_mid
            ∙ ap (λ (t : Tables). t.audit_log) b.frame,
        B.tables u,
        facts_same,
        put_in_mid,
        (eq_iff r.id (B.canonical old)).0 (and_left _ _ named),
        subst (Has r) facts_same m,
        Inserted-Has E ctx fact o.0 o.1 (B.tables u) (B.tables w) r put_in_mid m,
      )
