-- ===== src/Server/Logic.antt =====
-- The steps that every tool is made of. A property of calls that these steps have, all eleven tools
-- have: each is proved of them once, here and below, for any such property.
pub mod Kept
pub mod Answers
use murray_context_ledger_mc.Base.{
  ◌≡◌, ℕ, String, Bool, true, false, Option, some, List, [], ◌∷◌, if◌then◌else◌,
}
use murray_context_ledger_mc.Effect.{value_error, pure, raise, ◌>>=◌, ◌>>◌}
use murray_context_ledger_mc.Json.{Json}
use murray_context_ledger_mc.Schemas.{FactInput}
use murray_context_ledger_mc.Store.{FactRow, FactStatus, FactQuery, eq_id}
use murray_context_ledger_mc.Server.Env.{Env, valid}
use murray_context_ledger_mc.Server.Context.{ToolContext, Call, begin, finish}
use murray_context_ledger_mc.Server.Write.{Outcome, insert_fact}
use murray_context_ledger_mc.Server.Tools.Review.{Decision, Reviewed, review_query, decide_found}

module _ (E : Env) where
  pub record Logic : Type 1 where
    -- What is shown of a whole tool call, and of its part for a context that has begun.
    pub Whole : (A : Type 0) → Call E A → Type 0
    pub Inside : ToolContext → (A : Type 0) → Call E A → Type 0
    pub begins :
        (A : Type 0) (tool : String) (arguments : Json) (body : ToolContext → Call E A)
        → ((ctx : ToolContext) → Inside ctx A (body ctx))
        → Whole A (begin E tool arguments >>= body)
    pub returns : (ctx : ToolContext) (A : Type 0) (a : A) → Inside ctx A (pure a)
    pub refuses :
        (ctx : ToolContext) (A : Type 0) (message : String)
        → Inside ctx A (raise (value_error message))
    pub binds :
        (ctx : ToolContext) (A B : Type 0) (m : Call E A) (f : A → Call E B)
        → Inside ctx A m
        → ((a : A) → Inside ctx B (f a))
        → Inside ctx B (m >>= f)
    pub selects :
        (ctx : ToolContext) (q : FactQuery)
        → Inside ctx (List FactRow) (E.backend.select_facts ctx.db q)
    pub counts :
        (ctx : ToolContext) (q : FactQuery) → Inside ctx (Option ℕ) (E.backend.count_facts ctx.db q)
    pub audits : (ctx : ToolContext) (ids : List String) → Inside ctx Unit (finish E ctx ids)
    pub stores :
        (ctx : ToolContext) (raw : Json) (fact : FactInput)
        → E.model_validate raw ≡ valid fact
        → Inside ctx (Outcome × String) (insert_fact E ctx fact)
    pub retires :
        (ctx : ToolContext) (old new : String)
        → Inside ctx (List FactRow) (
            E.backend.update_facts ctx.db
              (record { superseded_by = some new; status = FactStatus.superseded })
              (eq_id old ∷ []))
    pub decides :
        (ctx : ToolContext) (id : String) (decision : Decision)
        → Inside ctx Reviewed
            (E.backend.select_facts ctx.db (review_query ctx id) >>= decide_found E ctx id decision)

  module _ (G : Logic) (ctx : ToolContext) where
    pub Inside-if :
        {A : Type 0} (c : Bool) (m n : Call E A)
        → G.Inside ctx A m
        → G.Inside ctx A n
        → G.Inside ctx A (if c then m else n)
    Inside-if true m n k l = k
    Inside-if false m n k l = l

    -- The common ends of a tool.
    pub finish-pure :
        {A : Type 0} (ids : List String) (a : A) → G.Inside ctx A (finish E ctx ids >> pure a)
    finish-pure {A} ids a =
        G.binds ctx _ A (finish E ctx ids) (λ _. pure a) (G.audits ctx ids) (λ _. G.returns ctx A a)

    pub finish-raise :
        (A : Type 0) (ids : List String) (message : String)
        → G.Inside ctx A (finish E ctx ids >> raise (value_error message))
    finish-raise A ids message =
        G.binds ctx _ A (finish E ctx ids) (λ _. raise (value_error message)) (G.audits ctx ids)
          (λ _. G.refuses ctx A message)

    -- A select, and what a tool does with the rows.
    pub select_then :
        {A : Type 0} (q : FactQuery) (f : List FactRow → Call E A)
        → ((rows : List FactRow) → G.Inside ctx A (f rows))
        → G.Inside ctx A (E.backend.select_facts ctx.db q >>= f)
    select_then {A} q f = G.binds ctx _ A (E.backend.select_facts ctx.db q) f (G.selects ctx q)
