-- ===== src/Server/Tools/Supersede/Outcomes.antt =====
-- What `supersede_fact` has done when it returns.
use murray_context_ledger_mc.Base.{
  ◌≡◌, refl, inl, inr, String, eq_iff, true, and_left, some, List, [], ◌∷◌, Has, arith,
}
use murray_context_ledger_mc.Effect.{pure, ◌>>◌}
use murray_context_ledger_mc.Effect.Runs.{Runs, Runs-bind, Runs-if, Runs-result}
use murray_context_ledger_mc.Json.{Json, text, object, field, end}
use murray_context_ledger_mc.Schemas.{FactInput}
use murray_context_ledger_mc.Uuid.{is_uuid}
use murray_context_ledger_mc.Store.{Tables, FactRow, eq_id, is_member_of}
use murray_context_ledger_mc.Store.Backend.{holds_all}
use murray_context_ledger_mc.Store.Laws.{Answer}
use murray_context_ledger_mc.Store.Returned.{updated, select_facts_returned, update_facts_returned}
use murray_context_ledger_mc.Server.Env.{Env, IsLawfulEnv, Validated, valid, invalid, Problem}
use murray_context_ledger_mc.Server.Context.{ToolContext, finish}
use murray_context_ledger_mc.Server.Context.Begin.{
  Begun, logged, begin_then_returned, finish-pure_returned,
}
use murray_context_ledger_mc.Server.Write.{Outcome, validation_errors, insert_fact, fact_status}
use murray_context_ledger_mc.Server.Write.Inserted.{Inserted, insert_fact_returned}
use murray_context_ledger_mc.Server.Tools.Read.{refuse_id}
use murray_context_ledger_mc.Server.Tools.Read.FetchAnswers.{refuse_id_never}
use murray_context_ledger_mc.Server.Tools.Supersede.{
  Superseded, not_valid, not_found, replaced, target_query, retire, was_deduped, replace_fact,
  if_target, if_valid, supersede_as, supersede_fact,
}

-- A row with the id, in an org of the caller.
abbrev pub IsTarget : (E : Env) → ToolContext → String → Tables → FactRow → Type 0
IsTarget E ctx old t r =
    Has r t.facts × (is_member_of t ctx.user_sub r.org_id ≡ true) × (r.id ≡ E.backend.canonical old)

-- The tables with the target retired in favour of another fact.
abbrev pub retired : (E : Env) → ToolContext → String → String → Tables → Tables
retired E ctx old new t = record t {
  facts = updated E.backend t ctx.user_sub (retire new) (eq_id old ∷ []);
}

-- The three ways in which the tool returns. Only the last one writes facts.
pub data Outcomes (E : Env) (ctx : ToolContext) (old : String) (raw : Json) (answer : Superseded)
    (mid after : Tables) : Type 0 where
  rejected :
      (problems : List Problem)
      → E.model_validate raw ≡ invalid problems
      → answer ≡ not_valid (validation_errors problems)
      → after ≡ logged E ctx [] mid
      → Outcomes E ctx old raw answer mid after
  absent :
      (fact : FactInput)
      → E.model_validate raw ≡ valid fact
      → answer ≡ not_found
      → ((r : FactRow) → IsTarget E ctx old mid r → ⊥)
      → after ≡ logged E ctx [] mid
      → Outcomes E ctx old raw answer mid after
  swapped :
      (fact : FactInput) (target : FactRow) (outcome : Outcome) (new : String) (between : Tables)
      → E.model_validate raw ≡ valid fact
      → IsTarget E ctx old mid target
      → Inserted E ctx fact outcome new mid between
      → answer ≡ replaced old new (fact_status fact.confidence) (was_deduped outcome)
      → after ≡ logged E ctx (new ∷ old ∷ []) (retired E ctx old new between)
      → Outcomes E ctx old raw answer mid after

abbrev pub supersede_arguments : String → Json → Json
supersede_arguments old raw = object (field "old_fact_id" (text old) (field "new_fact" raw end))

module _ (E : Env) (L : IsLawfulEnv E) (old : String) (raw : Json) (ctx : ToolContext)
    (who : E.backend.subject ctx.db ≡ some ctx.user_sub) where
  abbrev Ends : Tables → Superseded → E.backend.State → Type 0
  Ends mid answer t = Outcomes E ctx old raw answer mid (E.backend.tables t)

  replaced_returned :
      (fact : FactInput) (target : FactRow) (s : E.backend.State) (answer : Superseded)
      (t : E.backend.State)
      → E.model_validate raw ≡ valid fact
      → IsTarget E ctx old (E.backend.tables s) target
      → Runs (replace_fact E ctx old fact) s answer t
      → Ends (E.backend.tables s) answer t
  unfolding replace_fact
  replaced_returned fact target s answer t v found h =
      let end_of = λ (o : Outcome × String).
        finish E ctx (o.1 ∷ old ∷ [])
        >> pure (replaced old o.1 (fact_status fact.confidence) (was_deduped o.0)) in
      let (o, u, stored, rest) =
        Runs-bind (insert_fact E ctx fact)
          (λ o. E.backend.update_facts ctx.db (retire o.1) (eq_id old ∷ []) >> end_of o) s answer t
          h in
      let (rows, w, changed, last) =
        Runs-bind (E.backend.update_facts ctx.db (retire o.1) (eq_id old ∷ [])) (λ _. end_of o) u
          answer t rest in
      let (same, audited) =
        finish-pure_returned E L ctx (o.1 ∷ old ∷ [])
          (replaced old o.1 (fact_status fact.confidence) (was_deduped o.0)) w answer t who last in
      swapped fact target o.0 o.1 (E.backend.tables u) v found
        (insert_fact_returned E L.lawful ctx fact who s o u stored) same
        (rw
          (update_facts_returned E.backend L.lawful ctx.db (retire o.1) (eq_id old ∷ [])
            ctx.user_sub u rows w who changed)
          at audited)

  if_target_returned :
      (fact : FactInput) (rows : List FactRow) (s : E.backend.State) (answer : Superseded)
      (t : E.backend.State)
      → E.model_validate raw ≡ valid fact
      → Answer E.backend (E.backend.tables s) ctx.user_sub (target_query old) rows
      → ((r : FactRow) → IsTarget E ctx old (E.backend.tables s) r → Has r rows)
      → Runs (if_target E ctx old fact rows) s answer t
      → Ends (E.backend.tables s) answer t
  unfolding if_target target_query
  if_target_returned fact [] s answer t v sound complete h =
      let (same, audited) = finish-pure_returned E L ctx [] not_found s answer t who h in
      absent fact v same complete audited
  if_target_returned fact (r ∷ rows) s answer t v sound complete h =
      let (found, policy, named) = sound.0 in
      replaced_returned fact r s answer t v
        (found, policy, (eq_iff r.id (E.backend.canonical old)).0 (and_left _ _ named)) h

  named_row :
      (r : FactRow) → r.id ≡ E.backend.canonical old → holds_all E.backend (eq_id old ∷ []) r ≡ true
  named_row r e = ground (arith, eq_iff r.id (E.backend.canonical old))

  if_valid_returned :
      (v : Validated) (s : E.backend.State) (answer : Superseded) (t : E.backend.State)
      → E.model_validate raw ≡ v
      → Runs (if_valid E ctx old v) s answer t
      → Ends (E.backend.tables s) answer t
  unfolding if_valid target_query
  if_valid_returned (invalid problems) s answer t e h =
      let (same, audited) =
        finish-pure_returned E L ctx [] (not_valid (validation_errors problems)) s answer t who h in
      rejected problems e same audited
  if_valid_returned (valid fact) s answer t e h =
      let (rows, u, got, rest) =
        Runs-bind (E.backend.select_facts ctx.db (target_query old)) (if_target E ctx old fact) s
          answer t h in
      let (kept, sound) =
        select_facts_returned E.backend L.lawful ctx.db (target_query old) ctx.user_sub s rows u who
          got in
      let complete : (r : FactRow) → IsTarget E ctx old (E.backend.tables s) r → Has r rows =
        λ r found.
          L.lawful.on_facts.select_complete ctx.db (target_query old) s ctx.user_sub rows r who
            (Runs-result (E.backend.select_facts ctx.db (target_query old)) s rows u got) refl refl
            found.0 found.1 (named_row r found.2) in
      rw (← kept)
        (if_target_returned fact rows u answer t e (rw kept sound) (rw kept complete) rest)

-- `supersede_fact` returns only for a text that is a uuid, and then in one of three ways, each
-- audited. With an invalid new fact, or if no fact of an org of the caller has the id, no fact
-- changes. Otherwise the new fact is inserted (or deduped), each row with the id that the caller
-- may update is retired in its favour, and both ids are audited.
pub supersede_fact_returned :
    (E : Env) (L : IsLawfulEnv E) (old : String) (raw : Json) (s : E.backend.State)
    (answer : Superseded) (t : E.backend.State)
    → Runs (supersede_fact E old raw) s answer t
    → (is_uuid old ≡ true)
      × (ctx : ToolContext) × (mid : Tables) × Begun E "supersede_fact"
          (supersede_arguments old raw)
          (E.backend.tables s)
          ctx
          mid
      × Outcomes E ctx old raw answer mid (E.backend.tables t)
unfolding supersede_fact supersede_as
supersede_fact_returned E L old raw s answer t h =
    let (ctx, u, b, rest) =
      begin_then_returned E L "supersede_fact" (supersede_arguments old raw)
        (λ c. supersede_as E c old raw) s answer t h in
    elim (Runs-if (is_uuid old) (if_valid E ctx old (E.model_validate raw)) (refuse_id E ctx old) u
      answer t rest) [
        | inl (good, went) ↦ (
          good,
          ctx,
          E.backend.tables u,
          b,
          if_valid_returned E L old raw ctx b.subject (E.model_validate raw) u answer t refl went,
        )
        | inr (bad, refused) ↦ absurd (refuse_id_never E L ctx old u answer t refused)
      ]
