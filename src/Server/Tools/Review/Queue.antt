-- ===== src/Server/Tools/Review/Queue.antt =====
-- What `list_pending_facts` answers, and how long a page of the queue is.
use murray_context_ledger_mc.Base.{ℕ, ◌≤◌, ◌≡◌, refl, true, inl, inr, none, [], length, arith}
use murray_context_ledger_mc.Base.Int.{ℤ, pos, negsuc}
use murray_context_ledger_mc.Effect.{pure, ◌>>◌}
use murray_context_ledger_mc.Effect.Runs.{Runs, Runs-bind, Runs-if, Runs-result}
use murray_context_ledger_mc.Json.{Json, int, object, field, end}
use murray_context_ledger_mc.Store.{Tables, FactStatus}
use murray_context_ledger_mc.Server.Env.{Env, IsLawfulEnv}
use murray_context_ledger_mc.Server.Context.{ToolContext, finish}
use murray_context_ledger_mc.Server.Context.Begin.{Begun, begin_then_returned, finish-pure_returned}
use murray_context_ledger_mc.Server.Scope.{may_review, scoped_pending_facts}
use murray_context_ledger_mc.Server.Search.Found.{scoped_returned}
use murray_context_ledger_mc.Server.Tools.Read.{ids}
use murray_context_ledger_mc.Server.Tools.Read.Shown.{Shown, show}
use murray_context_ledger_mc.Server.Tools.Review.{
  capped, pending_review_limit, pending_query, Pending, deny_review, pending_page, pending_as,
  list_pending_facts,
}
use murray_context_ledger_mc.Server.Tools.Review.Decided.{deny_review_never}

abbrev pub limit_arguments : ℤ → Json
limit_arguments limit = object (field "limit" (int limit) end)

-- Whatever limit is asked for, negative ones included, a page has from 1 to 20 places, and a limit
-- in that range is taken as it is.
pub capped_bounds :
    (limit : ℤ)
    → (1 ≤ capped limit)
      × (capped limit ≤ pending_review_limit)
      × ((n : ℕ) → limit ≡ pos n → 1 ≤ n → n ≤ pending_review_limit → capped limit ≡ n)
unfolding capped
capped_bounds (pos n) = (omega arith, omega arith, λ m e low high. ground arith)
capped_bounds (negsuc n) = (omega arith, omega arith, λ m e low high. cc)

module _ (E : Env) (L : IsLawfulEnv E) where
  pending_page_returned :
      (limit : ℤ) (before : Tables) (ctx : ToolContext) (s : E.backend.State) (answer : Pending)
      (t : E.backend.State)
      → Begun E "list_pending_facts" (limit_arguments limit) before ctx (E.backend.tables s)
      → may_review ctx.role ≡ true
      → Runs (pending_page E ctx limit) s answer t
      → (answer.count ≡ length answer.pending)
        × (answer.count ≤ capped limit)
        × (shown : Shown E FactStatus.pending_review "list_pending_facts"
            (limit_arguments limit)
            none
            answer.pending
            before
            (E.backend.tables t))
        × (may_review shown.recorded.ctx.role ≡ true)
  unfolding pending_page pending_query scoped_pending_facts
  pending_page_returned limit before ctx s answer t b allowed h =
      let q = pending_query ctx limit in
      let (rows, u, got, rest) =
        Runs-bind (E.backend.select_facts ctx.db q)
          (λ rows. finish E ctx (ids rows) >> pure (record { pending = rows; count = length rows }))
          s answer t h in
      let (same, audited) =
        finish-pure_returned E L ctx (ids rows) (record { pending = rows; count = length rows }) u
          answer t b.subject rest in
      rw same (
        refl,
        L.lawful.on_facts.select_limit ctx.db q s rows
            (Runs-result (E.backend.select_facts ctx.db q) s rows u got),
        show E FactStatus.pending_review "list_pending_facts" (limit_arguments limit) none rows
            before ctx (E.backend.tables s) u t b
            (scoped_returned E L "list_pending_facts" (limit_arguments limit) before ctx
              (E.backend.tables s) b q FactStatus.pending_review none [] s rows u refl refl got)
            audited,
        allowed,
      )

  -- `list_pending_facts` returns to an owner or office only; it answers at most the capped number
  -- of pending facts, all of the reviewer's org and effective scopes, counts them, and audits
  -- exactly their ids.
  pub list_pending_facts_returned :
      (limit : ℤ) (s : E.backend.State) (answer : Pending) (t : E.backend.State)
      → Runs (list_pending_facts E limit) s answer t
      → (answer.count ≡ length answer.pending)
        × (answer.count ≤ capped limit)
        × (shown : Shown E FactStatus.pending_review "list_pending_facts"
            (limit_arguments limit)
            none
            answer.pending
            (E.backend.tables s)
            (E.backend.tables t))
        × (may_review shown.recorded.ctx.role ≡ true)
  unfolding list_pending_facts pending_as
  list_pending_facts_returned limit s answer t h =
      let (ctx, u, b, rest) =
        begin_then_returned E L "list_pending_facts" (limit_arguments limit)
          (λ c. pending_as E c limit) s answer t h in
      elim (Runs-if (may_review ctx.role) (pending_page E ctx limit) (deny_review E ctx) u answer t
        rest) [
          | inl (allowed, went) ↦
              pending_page_returned limit (E.backend.tables s) ctx u answer t b allowed went
          | inr (other, denied) ↦ absurd (deny_review_never E L ctx u answer t denied)
        ]
