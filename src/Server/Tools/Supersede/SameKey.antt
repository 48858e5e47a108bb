-- ===== src/Server/Tools/Supersede/SameKey.antt =====
-- A correction that carries the dedupe key of the fact that it corrects.
use murray_context_ledger_mc.Base.{
  ◌≡◌, refl, sym, ap, ◌∙◌, inl, inr, String, Bool, true, ◌&&◌, some, List, [], ◌∷◌, map, Has,
  Has-map, eq_iff, arith, if◌then◌else◌, Bool-cases,
}
use murray_context_ledger_mc.Effect.Runs.{Runs}
use murray_context_ledger_mc.Json.{Json}
use murray_context_ledger_mc.Schemas.{FactInput}
use murray_context_ledger_mc.Store.{
  Tables, FactRow, FactStatus, FactFilter, FactPatch, eq_id, is_member_of,
}
use murray_context_ledger_mc.Store.Backend.{Backend, patch_row, holds_all}
use murray_context_ledger_mc.Store.Returned.{updated}
use murray_context_ledger_mc.Server.Env.{Env, IsLawfulEnv, valid}
use murray_context_ledger_mc.Server.Context.{ToolContext}
use murray_context_ledger_mc.Server.Context.Begin.{Begun, Begun-only_org}
use murray_context_ledger_mc.Server.Write.{Outcome, deduped, fact_row}
use murray_context_ledger_mc.Server.Write.Inserted.{Inserted, fresh, existing}
use murray_context_ledger_mc.Store.Change.{UniqueKeys}
use murray_context_ledger_mc.Server.Tools.Supersede.{replaced, retire, was_deduped, supersede_fact}
use murray_context_ledger_mc.Server.Tools.Supersede.Outcomes.{
  Outcomes, rejected, absent, swapped, IsTarget, supersede_arguments, supersede_fact_returned,
}

abbrev pub contents : List FactRow → List String
contents = map (λ r. r.content)

contents-updated :
    (B : Backend) (t : Tables) (sub : String) (p : FactPatch) (fs : List FactFilter)
    (rows : List FactRow)
    → contents (
        map
          (λ r. if is_member_of t sub r.org_id && holds_all B fs r then patch_row p r else r)
          rows)
      ≡ contents rows
contents-updated B t sub p fs [] = refl
contents-updated B t sub p fs (r ∷ rows) =
    elim (Bool-cases (is_member_of t sub r.org_id && holds_all B fs r)) [
      | inl hit ↦ rw hit (ap (λ xs. r.content ∷ xs) (contents-updated B t sub p fs rows))
      | inr missed ↦ rw missed (ap (λ xs. r.content ∷ xs) (contents-updated B t sub p fs rows))
    ]

module _ (E : Env) (L : IsLawfulEnv E) (old key : String) (raw : Json) (fact : FactInput)
    (target : FactRow) where
  -- No other row has the id that is to be replaced.
  abbrev pub OnlyTarget : List FactRow → Type 0
  OnlyTarget facts = (r : FactRow) → Has r facts → r.id ≡ E.backend.canonical old → r ≡ target

  -- The answer names the target itself, the contents are those before, and the target is retired.
  abbrev pub Lost : String → Bool → List FactRow → List FactRow → Type 0
  Lost new was before after =
      (new ≡ target.id)
      × (was ≡ true)
      × (contents after ≡ contents before)
      × Has (patch_row (retire target.id) target) after

  kept_row :
      (tool : String) (arguments : Json) (before : Tables) (ctx : ToolContext)
      (mid between : Tables) (outcome : Outcome) (new : String)
      → Begun E tool arguments before ctx mid
      → fact.dedupe_key ≡ some key
      → target.dedupe_key ≡ some key
      → UniqueKeys before.facts
      → IsTarget E ctx old mid target
      → Inserted E ctx fact outcome new mid between
      → (outcome ≡ deduped) × (new ≡ target.id) × (between ≡ mid)
  unfolding fact_row
  kept_row tool arguments before ctx mid between outcome new b keyed has unique (m, member, named)
        (fresh row _ _ _ _ _ alone) =
      absurd (
        alone target m
          (key, keyed, has, Begun-only_org E tool arguments before ctx mid b target.org_id member))
  kept_row tool arguments before ctx mid between outcome new b keyed has unique (m, member, named)
        (existing r k made named' same keyed' m' has') =
      let facts_same : mid.facts ≡ before.facts = ap (λ (t : Tables). t.facts) b.frame in
      let k_same : some k ≡ some key = sym keyed' ∙ keyed in
      let org = Begun-only_org E tool arguments before ctx mid b target.org_id member in
      let one : r ≡ target =
        unique r target key (rw facts_same at m') (rw facts_same at m) (has'.1 ∙ k_same) has
          (has'.0 ∙ sym org) in
      (made, named' ∙ ap (λ (x : FactRow). x.id) one, same)

  -- The target, retired in favour of itself.
  retired_target :
      (ctx : ToolContext) (mid : Tables)
      → IsTarget E ctx old mid target
      → Has
          (patch_row (retire target.id) target)
          (updated E.backend mid ctx.user_sub (retire target.id) (eq_id old ∷ []))
  retired_target ctx mid (m, member, named) =
      let test : FactRow → Bool =
        λ r. is_member_of mid ctx.user_sub r.org_id && holds_all E.backend (eq_id old ∷ []) r in
      let hit : test target ≡ true =
        ground (arith, member, eq_iff target.id (E.backend.canonical old), named) in
      rw hit at
        (Has-map (λ r. if test r then patch_row (retire target.id) r else r) target mid.facts m)

  same_key_of :
      (s : E.backend.State) (ctx : ToolContext) (mid : Tables) (id new : String)
      (status : FactStatus) (was : Bool) (t : E.backend.State)
      → E.model_validate raw ≡ valid fact
      → fact.dedupe_key ≡ some key
      → target.dedupe_key ≡ some key
      → UniqueKeys (E.backend.tables s).facts
      → OnlyTarget (E.backend.tables s).facts
      → Begun E "supersede_fact" (supersede_arguments old raw) (E.backend.tables s) ctx mid
      → Outcomes E ctx old raw (replaced id new status was) mid (E.backend.tables t)
      → Lost new was (E.backend.tables s).facts (E.backend.tables t).facts
  same_key_of s ctx mid id new status was t v keyed has unique primary b
        (rejected problems e made audited) =
      cc
  same_key_of s ctx mid id new status was t v keyed has unique primary b
        (absent f e made none_there audited) =
      cc
  same_key_of s ctx mid id new status was t v keyed has unique primary b
        (swapped f r outcome n between e (m, member, named) stored made audited) =
      let facts_same : mid.facts ≡ (E.backend.tables s).facts =
        ap (λ (x : Tables). x.facts) b.frame in
      let is_target : r ≡ target = primary r (rw facts_same at m) named in
      let found : IsTarget E ctx old mid target = rw (← is_target) (m, member, named) in
      let f_same : f ≡ fact = cc in
      let stored' : Inserted E ctx fact outcome n mid between = rw f_same at stored in
      let (was_kept, is_id, same) =
        kept_row "supersede_fact" (supersede_arguments old raw) (E.backend.tables s) ctx mid between
          outcome n b keyed has unique found stored' in
      let after : (E.backend.tables t).facts
          ≡ updated E.backend mid ctx.user_sub (retire target.id) (eq_id old ∷ []) =
        ap (λ (x : Tables). x.facts) audited
        ∙ ap (λ (x : Tables). updated E.backend x ctx.user_sub (retire n) (eq_id old ∷ [])) same
        ∙ ap (λ i. updated E.backend mid ctx.user_sub (retire i) (eq_id old ∷ [])) is_id in
      (
        cc (is_id, made),
        cc (made, ap was_deduped was_kept),
        rw after (
            contents-updated E.backend mid ctx.user_sub (retire target.id) (eq_id old ∷ [])
              mid.facts
            ∙ ap contents facts_same),
        rw after (retired_target ctx mid found),
      )

  -- If the new fact carries the dedupe key of the very fact that is to be replaced, a call of
  -- `supersede_fact` that reports a replacement has stored no new content: the fact is retired in
  -- favour of itself, and the correction is lost. (Ids and keys are unique, as the schema has it.)
  pub supersede_same_key :
      (s : E.backend.State) (id new : String) (status : FactStatus) (was : Bool)
      (t : E.backend.State)
      → E.model_validate raw ≡ valid fact
      → fact.dedupe_key ≡ some key
      → target.dedupe_key ≡ some key
      → UniqueKeys (E.backend.tables s).facts
      → OnlyTarget (E.backend.tables s).facts
      → Runs (supersede_fact E old raw) s (replaced id new status was) t
      → Lost new was (E.backend.tables s).facts (E.backend.tables t).facts
  supersede_same_key s id new status was t v keyed has unique primary h =
      let (good, ctx, mid, b, o) =
        supersede_fact_returned E L old raw s (replaced id new status was) t h in
      same_key_of s ctx mid id new status was t v keyed has unique primary b o
