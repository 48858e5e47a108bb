-- ===== src/Server/Write/Inserted.antt =====
-- What `_insert_fact` has done when it returns.
use murray_context_ledger_mc.Base.{
  ◌≡◌, ◌≢◌, refl, sym, ap, ◌∙◌, inl, inr, String, ◌==◌, eq_iff, true, and_left, and_right, Option,
  none, some, List, [], ◌∷◌, ◌++◌, Has, All,
}
use murray_context_ledger_mc.Effect.{Error, api_error, Result, err, raise, ◌>>=◌}
use murray_context_ledger_mc.Effect.Runs.{
  Runs, Runs-bind, Runs-pure, Runs-catch, Runs-if, Runs-raise, Runs-result, Fails-bind,
}
use murray_context_ledger_mc.Schemas.{FactInput}
use murray_context_ledger_mc.Store.{Tables, FactRow}
use murray_context_ledger_mc.Store.Backend.{IsStamped, opt_eq}
use murray_context_ledger_mc.Store.Laws.{SameKey, IsLawful, Answer}
use murray_context_ledger_mc.Store.Returned.{
  insert_fact_returned as row_inserted, select_facts_returned,
}
use murray_context_ledger_mc.Server.Env.{Env}
use murray_context_ledger_mc.Server.Context.{ToolContext}
use murray_context_ledger_mc.Server.Write.{
  Outcome, created, deduped, fact_row, key_query, first_created, first_existing, look_up_key,
  key_conflict, insert_fact, unique_violation,
}

-- A row of the caller's org with this key.
abbrev pub HasKey : ToolContext → String → FactRow → Type 0
HasKey ctx key r = (r.org_id ≡ ctx.org_id) × (r.dedupe_key ≡ some key)

-- Either a new row, stamped with the caller and the caller's org, whose key no row had; or no
-- change, and the id of a row that has the key already.
pub data Inserted (E : Env) (ctx : ToolContext) (fact : FactInput) (outcome : Outcome) (id : String)
    (before after : Tables) : Type 0 where
  fresh :
      (new : FactRow)
      → outcome ≡ created
      → id ≡ new.id
      → after ≡ record before { facts = before.facts ++ (new ∷ []) }
      → IsStamped E.backend (fact_row ctx fact) new
      → All (λ r. r.id ≢ new.id) before.facts
      → ((r : FactRow) → Has r before.facts → SameKey (fact_row ctx fact) r → ⊥)
      → Inserted E ctx fact outcome id before after
  existing :
      (r : FactRow) (key : String)
      → outcome ≡ deduped
      → id ≡ r.id
      → after ≡ before
      → fact.dedupe_key ≡ some key
      → Has r before.facts
      → HasKey ctx key r
      → Inserted E ctx fact outcome id before after

opt_eq→eq : (o : Option String) (k : String) → opt_eq o k ≡ true → o ≡ some k
opt_eq→eq none k h = cc
opt_eq→eq (some j) k h = ap some ((eq_iff j k).0 h)

module _ (E : Env) (L : IsLawful E.backend) (ctx : ToolContext) (fact : FactInput)
    (who : E.backend.subject ctx.db ≡ some ctx.user_sub) where
  abbrev Ends : E.backend.State → Outcome × String → E.backend.State → Type 0
  Ends s o t = Inserted E ctx fact o.0 o.1 (E.backend.tables s) (E.backend.tables t)

  inserted :
      (s u : E.backend.State) (rows : List FactRow) (o : Outcome × String) (t : E.backend.State)
      → Runs (E.backend.insert_fact ctx.db (fact_row ctx fact)) s rows u
      → Runs (first_created E rows) u o t
      → Ends s o t
  unfolding first_created
  inserted s u [] o t got h = cc
  inserted s u (r ∷ rows) o t got h =
      let (new, one, grown, stamped, policy, unlike) =
        row_inserted E.backend L ctx.db (fact_row ctx fact) ctx.user_sub s (r ∷ rows) u who got in
      let (same, kept) = Runs-pure (created, r.id) u o t h in
      let first : r ≡ new = cc in
      fresh new (ap (λ (p : Outcome × String). p.0) (sym same))
        (rw (← same) (ap (λ (x : FactRow). x.id) first)) (rw (← kept) grown) stamped unlike
        (λ q m k.
          L.on_facts.insert_unique ctx.db (fact_row ctx fact) s q (r ∷ rows) m k
            (Runs-result (E.backend.insert_fact ctx.db (fact_row ctx fact)) s (r ∷ rows) u got))

  first_created_refuses :
      (rows : List FactRow) (v : E.backend.State) (code : String) (u : E.backend.State)
      → first_created E rows v ≡ (err (api_error code), u)
      → ⊥
  unfolding first_created
  first_created_refuses [] v code u h = cc
  first_created_refuses (r ∷ rows) v code u h = cc

  refused :
      (s u : E.backend.State) (code : String)
      → (E.backend.insert_fact ctx.db (fact_row ctx fact) >>= first_created E) s
        ≡ (err (api_error code), u)
      → u ≡ s
  refused s u code h =
      elim (Fails-bind (E.backend.insert_fact ctx.db (fact_row ctx fact)) (first_created E) s
        (api_error code) u h) [
          | inl at_once ↦
              sym (ap (λ (p : Result (List FactRow) × E.backend.State). p.1) at_once)
              ∙ L.on_facts.insert_refused ctx.db (fact_row ctx fact) s code
                  (ap (λ (p : Result (List FactRow) × E.backend.State). p.0) at_once)
          | inr (rows, v, got, late) ↦ absurd (first_created_refuses rows v code u late)
        ]

  first_existing_returned :
      (key code : String) (s u : E.backend.State) (rows : List FactRow) (o : Outcome × String)
      (t : E.backend.State)
      → fact.dedupe_key ≡ some key
      → E.backend.tables u ≡ E.backend.tables s
      → Answer E.backend (E.backend.tables s) ctx.user_sub (key_query ctx key) rows
      → Runs (first_existing E (api_error code) rows) u o t
      → Ends s o t
  unfolding first_existing key_query
  first_existing_returned key code s u [] o t keyed kept sound h = cc
  first_existing_returned key code s u (r ∷ rows) o t keyed kept sound h =
      let (same, still) = Runs-pure (deduped, r.id) u o t h in
      let (found, policy, filters) = sound.0 in
      existing r key (ap (λ (p : Outcome × String). p.0) (sym same))
        (ap (λ (p : Outcome × String). p.1) (sym same)) (rw (← still) kept) keyed found
        (
          (eq_iff r.org_id ctx.org_id).0 (and_left _ _ filters),
          opt_eq→eq r.dedupe_key key (and_left _ _ (and_right _ _ filters)),
        )

  look_up_key_returned :
      (key code : String) (s : E.backend.State) (o : Outcome × String) (t : E.backend.State)
      → fact.dedupe_key ≡ some key
      → Runs (look_up_key E ctx key (api_error code)) s o t
      → Ends s o t
  unfolding look_up_key
  look_up_key_returned key code s o t keyed h =
      let (rows, u, got, rest) =
        Runs-bind (E.backend.select_facts ctx.db (key_query ctx key))
          (first_existing E (api_error code)) s o t h in
      let (kept, sound) =
        select_facts_returned E.backend L ctx.db (key_query ctx key) ctx.user_sub s rows u who
          got in
      first_existing_returned key code s u rows o t keyed kept sound rest

  conflicted :
      (k : Option String) (s u : E.backend.State) (e : Error) (o : Outcome × String)
      (t : E.backend.State)
      → fact.dedupe_key ≡ k
      → (E.backend.insert_fact ctx.db (fact_row ctx fact) >>= first_created E) s ≡ (err e, u)
      → Runs (key_conflict E ctx k e) u o t
      → Ends s o t
  unfolding key_conflict
  conflicted none s u e o t keyed failed h = cc
  conflicted (some key) s u (api_error code) o t keyed failed h =
      elim (Runs-if (code == unique_violation) (look_up_key E ctx key (api_error code))
        (raise (api_error code)) u o t h) [
          | inl (_, looked) ↦
              rw (← refused s u code failed) (look_up_key_returned key code u o t keyed looked)
          | inr (_, raised) ↦ absurd (Runs-raise (api_error code) u o t raised)
        ]
  conflicted (some key) s u e o t keyed failed h = cc

  -- For a client that acts for the context's subject: a call of `_insert_fact` that returns has
  -- either added one row, stamped with the caller's sub and org and the fact's values, whose id
  -- and key are new, and answers "created" with its id; or it has changed nothing, and answers
  -- "deduped" with the id of a row of the org that has the fact's key.
  pub insert_fact_returned :
      (s : E.backend.State) (o : Outcome × String) (t : E.backend.State)
      → Runs (insert_fact E ctx fact) s o t
      → Inserted E ctx fact o.0 o.1 (E.backend.tables s) (E.backend.tables t)
  unfolding insert_fact
  insert_fact_returned s o t h =
      elim (Runs-catch (E.backend.insert_fact ctx.db (fact_row ctx fact) >>= first_created E)
        (key_conflict E ctx fact.dedupe_key) s o t h) [
          | inl went ↦
              let (rows, u, got, rest) =
                Runs-bind (E.backend.insert_fact ctx.db (fact_row ctx fact)) (first_created E) s o t
                  went in
              inserted s u rows o t got rest
          | inr (e, u, failed, rest) ↦ conflicted fact.dedupe_key s u e o t refl failed rest
        ]
