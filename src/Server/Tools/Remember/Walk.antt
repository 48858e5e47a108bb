-- ===== src/Server/Tools/Remember/Walk.antt =====
-- `remember_facts`, returned or raised half-way: what it can do to the tables.
use murray_context_ledger_mc.Base.{◌≡◌, refl, ℕ, ◌+◌, List, [], ◌∷◌}
use murray_context_ledger_mc.Effect.{pure, ◌>>=◌, ◌>>◌}
use murray_context_ledger_mc.Json.{Json, array, object, field, end}
use murray_context_ledger_mc.Server.Env.{Env, Validated, valid, invalid}
use murray_context_ledger_mc.Server.Context.{ToolContext, finish}
use murray_context_ledger_mc.Server.Logic.{Logic, finish-pure}
use murray_context_ledger_mc.Server.Write.{insert_fact}
use murray_context_ledger_mc.Server.Tools.Remember.{
  Tally, empty, items_of, reject, accept, remembered, remember_one, remember_loop, remember_facts,
}

module _ (E : Env) (G : Logic E) where
  module _ (ctx : ToolContext) where
    remember_one-Walk :
        (index : ℕ) (t : Tally) (raw : Json) (v : Validated)
        → E.model_validate raw ≡ v
        → G.Inside ctx _ (remember_one E ctx index t v)
    unfolding remember_one
    remember_one-Walk index t raw (invalid problems) e = G.returns ctx _ (reject t index problems)
    remember_one-Walk index t raw (valid fact) e =
        G.binds ctx _ _ (insert_fact E ctx fact) (λ outcome. pure (accept t outcome))
          (G.stores ctx raw fact e) (λ outcome. G.returns ctx _ (accept t outcome))

    remember_loop-Walk :
        (index : ℕ) (raws : List Json) (t : Tally)
        → G.Inside ctx _ (remember_loop E ctx index raws t)
    unfolding remember_loop
    remember_loop-Walk index [] t = G.returns ctx _ t
    remember_loop-Walk index (raw ∷ raws) t =
        G.binds ctx _ _ (remember_one E ctx index t (E.model_validate raw))
          (remember_loop E ctx (index + 1) raws)
          (remember_one-Walk index t raw (E.model_validate raw) refl)
          (remember_loop-Walk (index + 1) raws)

  pub remember_facts-Walk : (raws : List Json) → G.Whole _ (remember_facts E raws)
  unfolding remember_facts
  remember_facts-Walk raws =
      G.begins _ "remember_facts" (object (field "facts" (array (items_of raws)) end))
        (λ ctx. remember_loop E ctx 0 raws empty >>= λ t.
          finish E ctx t.touched >> pure (remembered ctx t))
        (λ ctx.
          G.binds ctx _ _ (remember_loop E ctx 0 raws empty)
            (λ t. finish E ctx t.touched >> pure (remembered ctx t))
            (remember_loop-Walk ctx 0 raws empty)
            (λ t. finish-pure E G ctx t.touched (remembered ctx t)))
