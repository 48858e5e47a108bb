-- ===== src/Server/Tools/Review/Decided.antt =====
-- What the review tools have done when they return.
use murray_context_ledger_mc.Base.{
  ◌≡◌, refl, inl, inr, String, eq_iff, true, and_left, Option, none, List, [], ◌∷◌, Has, All, arith,
}
use murray_context_ledger_mc.Effect.{value_error, pure, ◌>>=◌, ◌>>◌}
use murray_context_ledger_mc.Effect.Runs.{Runs, Runs-bind, Runs-if}
use murray_context_ledger_mc.Json.{Json}
use murray_context_ledger_mc.Uuid.{is_uuid}
use murray_context_ledger_mc.Store.{Tables, FactRow, FactStatus, FactPatch, eq_id}
use murray_context_ledger_mc.Store.Backend.{holds_all}
use murray_context_ledger_mc.Store.Returned.{updated, update_facts_returned}
use murray_context_ledger_mc.Server.Env.{Env, IsLawfulEnv}
use murray_context_ledger_mc.Server.Context.{ToolContext, finish}
use murray_context_ledger_mc.Server.Context.Begin.{
  Begun, logged, begin_then_returned, finish-pure_returned, finish-raise_never,
}
use murray_context_ledger_mc.Server.Scope.{may_review, scoped_pending_facts}
use murray_context_ledger_mc.Server.Scope.Visible.{Visible}
use murray_context_ledger_mc.Server.Search.Found.{
  Found, scoped_returned, scoped_more, scoped_complete,
}
use murray_context_ledger_mc.Server.Tools.Read.{refuse_id}
use murray_context_ledger_mc.Server.Tools.Read.FetchAnswers.{refuse_id_never}
use murray_context_ledger_mc.Server.Tools.Review.{
  Decision, tool_name, review_arguments, new_status, review_query, Reviewed, not_pending, reviewed,
  review_denied_message, deny_review, decide_found, decide_id, decide, review_decision,
}

abbrev pub decided : Decision → FactPatch
decided decision = record { superseded_by = none; status = new_status decision }

-- A pending fact of the reviewer's org, within the reviewer's scopes, with this id.
abbrev pub Reviewable : (E : Env) → ToolContext → String → Tables → FactRow → Type 0
Reviewable E ctx id t r =
    Visible FactStatus.pending_review ctx none t r × (r.id ≡ E.backend.canonical id)

-- The two ways in which a review returns.
pub data Review (E : Env) (ctx : ToolContext) (id : String) (decision : Decision)
    (answer : Reviewed) (mid after : Tables) : Type 0 where
  nothing :
      answer ≡ not_pending
      → ((r : FactRow) → Reviewable E ctx id mid r → ⊥)
      → after ≡ logged E ctx [] mid
      → Review E ctx id decision answer mid after
  changed :
      (r : FactRow)
      → Reviewable E ctx id mid r
      → answer ≡ reviewed id (new_status decision)
      → after
        ≡ logged E ctx (id ∷ []) (
            let x : Tables = record mid {
              facts = updated E.backend mid ctx.user_sub (decided decision) (eq_id id ∷ []);
            } in
            x)
      → Review E ctx id decision answer mid after

module _ (E : Env) (L : IsLawfulEnv E) where
  -- A role that may not review gets no result.
  pub deny_review_never :
      {A : Type 0} (ctx : ToolContext) (s : E.backend.State) (a : A) (t : E.backend.State)
      → Runs (deny_review E ctx) s a t
      → ⊥
  unfolding deny_review
  deny_review_never ctx s a t h =
      finish-raise_never E L ctx [] (value_error review_denied_message) s a t h

  module _ (id : String) (decision : Decision) (args : Json) (before : Tables) (ctx : ToolContext)
      (mid : Tables) (b : Begun E (tool_name decision) args before ctx mid) where
    decide_found_returned :
        (rows : List FactRow) (s : E.backend.State) (answer : Reviewed) (t : E.backend.State)
        → Found E FactStatus.pending_review ctx none mid rows s
        → All (λ r. holds_all E.backend (eq_id id ∷ []) r ≡ true) rows
        → ((r : FactRow) → Reviewable E ctx id mid r → Has r rows)
        → Runs (decide_found E ctx id decision rows) s answer t
        → Review E ctx id decision answer mid (E.backend.tables t)
    unfolding decide_found
    decide_found_returned [] s answer t (kept, sound) named complete h =
        let (same, audited) = finish-pure_returned E L ctx [] not_pending s answer t b.subject h in
        nothing same complete (rw kept at audited)
    decide_found_returned (r ∷ rows) s answer t (kept, sound) named complete h =
        let (out, u, wrote, rest) =
          Runs-bind (E.backend.update_facts ctx.db (decided decision) (eq_id id ∷ []))
            (λ _. finish E ctx (id ∷ []) >> pure (reviewed id (new_status decision))) s answer t
            h in
        let (same, audited) =
          finish-pure_returned E L ctx (id ∷ []) (reviewed id (new_status decision)) u answer t
            b.subject rest in
        let grown =
          update_facts_returned E.backend L.lawful ctx.db (decided decision) (eq_id id ∷ [])
            ctx.user_sub s out u b.subject wrote in
        changed r (sound.0, (eq_iff r.id (E.backend.canonical id)).0 (and_left _ _ named.0)) same
          (rw kept at (rw grown at audited))

    named_row :
        (r : FactRow) → r.id ≡ E.backend.canonical id → holds_all E.backend (eq_id id ∷ []) r ≡ true
    named_row r e = ground (arith, eq_iff r.id (E.backend.canonical id))

    decide_id_returned :
        (s : E.backend.State) (answer : Reviewed) (t : E.backend.State)
        → E.backend.tables s ≡ mid
        → Runs (decide_id E ctx id decision) s answer t
        → (is_uuid id ≡ true) × Review E ctx id decision answer mid (E.backend.tables t)
    unfolding decide_id review_query scoped_pending_facts
    decide_id_returned s answer t at_mid h =
        let q = review_query ctx id in
        let pending = FactStatus.pending_review in
        elim (Runs-if (is_uuid id)
          (E.backend.select_facts ctx.db q >>= decide_found E ctx id decision) (refuse_id E ctx id)
          s answer t h) [
            | inl (good, went) ↦
                let (rows, u, got, rest) =
                  Runs-bind (E.backend.select_facts ctx.db q) (decide_found E ctx id decision) s
                    answer t went in
                (
                  good,
                  decide_found_returned rows u answer t
                      (scoped_returned E L (tool_name decision) args before ctx mid b q pending none
                        (eq_id id ∷ []) s rows u refl at_mid got)
                      (scoped_more E L (tool_name decision) args before ctx mid b q pending none
                        (eq_id id ∷ []) s rows u refl at_mid got)
                      (λ r v.
                        scoped_complete E L (tool_name decision) args before ctx mid b q pending
                          none (eq_id id ∷ []) s rows u r refl refl refl at_mid got v.0
                          (named_row r v.1))
                      rest,
                )
            | inr (bad, refused) ↦ absurd (refuse_id_never E L ctx id s answer t refused)
          ]

  -- A review (promote or reject) returns only for an owner or office, and only for a text that is
  -- a uuid. If a pending fact of the reviewer's org and within the reviewer's scopes has the id,
  -- the facts with that id get the new status, and the id is audited; if none has, no fact changes
  -- and no id is audited.
  pub review_decision_returned :
      (id : String) (decision : Decision) (reason : Option String) (s : E.backend.State)
      (answer : Reviewed) (t : E.backend.State)
      → Runs (review_decision E id decision reason) s answer t
      → (ctx : ToolContext) × (mid : Tables) × Begun E
          (tool_name decision)
          (review_arguments decision id reason)
          (E.backend.tables s)
          ctx
          mid
        × (may_review ctx.role ≡ true)
        × (is_uuid id ≡ true)
        × Review E ctx id decision answer mid (E.backend.tables t)
  unfolding review_decision decide
  review_decision_returned id decision reason s answer t h =
      let args = review_arguments decision id reason in
      let (ctx, u, b, rest) =
        begin_then_returned E L (tool_name decision) args (λ c. decide E c id decision) s answer t
          h in
      elim (Runs-if (may_review ctx.role) (decide_id E ctx id decision) (deny_review E ctx) u answer
        t rest) [
          | inl (allowed, went) ↦
              let (good, review) =
                decide_id_returned id decision args (E.backend.tables s) ctx (E.backend.tables u) b
                  u answer t refl went in
              (ctx, E.backend.tables u, b, allowed, good, review)
          | inr (other, denied) ↦ absurd (deny_review_never ctx u answer t denied)
        ]
