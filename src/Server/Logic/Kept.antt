-- ===== src/Server/Logic/Kept.antt =====
-- What the tools can do to the tables, returned or raised.
use murray_context_ledger_mc.Base.{
  ◌≡◌, refl, sym, ◌∙◌, ap, subst, String, eq_iff, true, and_left, and_right, some, List, [], ◌∷◌,
  Has, All,
}
use murray_context_ledger_mc.Effect.{value_error, pure, ◌>>=◌, ◌>>◌}
use murray_context_ledger_mc.Store.{FactRow, FactStatus, eq_id}
use murray_context_ledger_mc.Store.Backend.{facts, holds_all}
use murray_context_ledger_mc.Store.Laws.{Answer}
use murray_context_ledger_mc.Store.Returned.{select_facts_returned}
use murray_context_ledger_mc.Store.Change.{Became, approved, declined, UniqueIds}
use murray_context_ledger_mc.Store.Changed.{
  Extends, select_facts-Keeps, count_facts-Keeps, update_facts-Extends,
}
use murray_context_ledger_mc.Server.Env.{Env, IsLawfulEnv}
use murray_context_ledger_mc.Server.Context.{ToolContext, finish}
use murray_context_ledger_mc.Server.Context.Kept.{
  Kept, caller, finish-Kept, Kept-pure, Kept-raise, Kept-bind, Kept-bind_at, finish-pure-Kept,
  begin_then-Kept,
}
use murray_context_ledger_mc.Server.Scope.{scoped_pending_facts}
use murray_context_ledger_mc.Server.Scope.Visible.{status_eq→eq}
use murray_context_ledger_mc.Server.Tools.Review.{
  Decision, promote, reject, not_pending, reviewed, new_status, review_query, decide_found,
}
use murray_context_ledger_mc.Server.Tools.Review.Decided.{decided}
use murray_context_ledger_mc.Server.Write.Kept.{insert_fact-Kept}
use murray_context_ledger_mc.Server.Logic.{Logic}

module _ (E : Env) (L : IsLawfulEnv E) (ctx : ToolContext)
    (who : E.backend.subject ctx.db ≡ some ctx.user_sub) (id : String) (decision : Decision) where
  -- A pending row, which the decision may change.
  decided-Became :
      (d : Decision) (r : FactRow)
      → r.status ≡ FactStatus.pending_review
      → Became r (record r { status = new_status d })
  unfolding new_status
  decided-Became promote r h = approved h refl
  decided-Became reject r h = declined h refl

  -- What the select has found: a pending row with the id.
  abbrev Named : E.backend.State → FactRow → Type 0
  Named s r =
      Has r (facts E.backend s)
      × (r.status ≡ FactStatus.pending_review)
      × (r.id ≡ E.backend.canonical id)

  -- The one row with the id is the pending row that was found.
  named_alone :
      (s : E.backend.State) (x : FactRow)
      → Named s x
      → UniqueIds (facts E.backend s)
      → (r : FactRow) → Has r (facts E.backend s)
      → holds_all E.backend (eq_id id ∷ []) r ≡ true
      → Became r (record r { status = new_status decision })
  named_alone s x (m, pending, named) unique r mr h =
      let one : r ≡ x =
        unique r x mr m ((eq_iff r.id (E.backend.canonical id)).0 (and_left _ _ h) ∙ sym named) in
      decided-Became decision r (ap (λ (z : FactRow). z.status) one ∙ pending)

  decide_found-Extends :
      (rows : List FactRow) (s : E.backend.State)
      → All (Named s) rows
      → Extends E.backend ctx.user_sub s (decide_found E ctx id decision rows s).1
  unfolding decide_found
  decide_found-Extends [] s h = finish-pure-Kept E L ctx [] not_pending who s
  decide_found-Extends (r ∷ rows) s h =
      Kept-bind_at E ctx.user_sub (E.backend.update_facts ctx.db (decided decision) (eq_id id ∷ []))
        (λ _. finish E ctx (id ∷ []) >> pure (reviewed id (new_status decision))) s
        (update_facts-Extends E.backend ctx.user_sub L.lawful ctx.db who (decided decision)
          (eq_id id ∷ []) s (named_alone s r h.0))
        (λ _ u _. finish-pure-Kept E L ctx (id ∷ []) (reviewed id (new_status decision)) who u)

  found-Named :
      (s : E.backend.State) (rows : List FactRow)
      → Answer E.backend (E.backend.tables s) ctx.user_sub (review_query ctx id) rows
      → All (Named s) rows
  unfolding review_query scoped_pending_facts
  found-Named s [] h = tt
  found-Named s (r ∷ rows) ((m, _, meets), more) = (
    (
      m,
      status_eq→eq r.status FactStatus.pending_review (and_left _ _ meets),
      (eq_iff r.id (E.backend.canonical id)).0 (and_left _ _ (and_right _ _ (and_right _ _ meets))),
    ),
    found-Named s rows more,
  )

  pub decides-Kept :
      Kept E ctx.user_sub
        (E.backend.select_facts ctx.db (review_query ctx id) >>= decide_found E ctx id decision)
  decides-Kept s =
      Kept-bind_at E ctx.user_sub (E.backend.select_facts ctx.db (review_query ctx id))
        (decide_found E ctx id decision) s
        (select_facts-Keeps E.backend ctx.user_sub L.lawful ctx.db (review_query ctx id) s)
        (λ rows u ran.
          let (kept, sound) =
            select_facts_returned E.backend L.lawful ctx.db (review_query ctx id) ctx.user_sub s
              rows u who ran in
          decide_found-Extends rows u (
            found-Named u rows (
              subst (λ t. Answer E.backend t ctx.user_sub (review_query ctx id) rows) (sym kept)
                sound)))

unfoldable pub kept_logic : (E : Env) → IsLawfulEnv E → Logic E
kept_logic E L = record {
  Whole = λ A m. Kept E (caller E.token) m;
  Inside = λ ctx A m. E.backend.subject ctx.db ≡ some ctx.user_sub → Kept E ctx.user_sub m;
  begins = λ A tool args body k. begin_then-Kept E L tool args body k;
  returns = λ ctx A a who. Kept-pure E ctx.user_sub a;
  refuses = λ ctx A message who. Kept-raise E ctx.user_sub A (value_error message);
  binds = λ ctx A B m f k l who. Kept-bind E ctx.user_sub m f (k who) (λ a. l a who);
  selects = λ ctx q who. select_facts-Keeps E.backend ctx.user_sub L.lawful ctx.db q;
  counts = λ ctx q who. count_facts-Keeps E.backend ctx.user_sub L.lawful ctx.db q;
  audits = λ ctx ids who. finish-Kept E L ctx ids who;
  stores = λ ctx raw fact e who. insert_fact-Kept E L ctx who fact;
  retires = λ ctx old new who s.
      update_facts-Extends E.backend ctx.user_sub L.lawful ctx.db who
        (record { superseded_by = some new; status = FactStatus.superseded }) (eq_id old ∷ []) s
        (λ unique r m named. Became.retired new refl);
  decides = λ ctx id decision who. decides-Kept E L ctx who id decision;
}
