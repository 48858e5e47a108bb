-- ===== src/Server/Tools/Remember/Batch.antt =====
-- What `remember_facts` has stored, reported and audited when it returns.
use mathlib.Core.List.{append-nil}
use murray_context_ledger_mc.Base.{
  Has, Has-append, ℕ, ◌+◌, ◌≡◌, refl, sym, String, some, List, [], ◌∷◌, ◌++◌, All, length,
  length-append, inl, inr, ◌∙◌, arith,
}
use murray_context_ledger_mc.Effect.{pure, ◌>>=◌, ◌>>◌}
use murray_context_ledger_mc.Effect.Runs.{Runs, Runs-bind, Runs-pure}
use murray_context_ledger_mc.Json.{Json, array, object, field, end}
use murray_context_ledger_mc.Schemas.{FactInput}
use murray_context_ledger_mc.Store.{Tables, FactRow}
use murray_context_ledger_mc.Server.Env.{Env, IsLawfulEnv, Validated, valid, invalid}
use murray_context_ledger_mc.Server.Context.{ToolContext, finish}
use murray_context_ledger_mc.Server.Context.Begin.{
  Begun, logged, begin_then_returned, finish-pure_returned,
}
use murray_context_ledger_mc.Server.Write.{Outcome, created, deduped, insert_fact}
use murray_context_ledger_mc.Server.Write.Inserted.{Inserted, fresh, existing, insert_fact_returned}
use murray_context_ledger_mc.Server.Tools.Read.{ids}
use murray_context_ledger_mc.Server.Tools.Remember.{
  Tally, empty, Remembered, items_of, reject, accept, remembered, remember_one, remember_loop,
  remember_facts,
}
use murray_context_ledger_mc.Server.Tools.Remember.Progress.{
  rejections, MadeFrom, Unlike, RepeatedBy, Progress, Progress-cons, Progress-still, rejected,
  nothing,
}

module _ (E : Env) (L : IsLawfulEnv E) where
  module _ (ctx : ToolContext) (who : E.backend.subject ctx.db ≡ some ctx.user_sub) where
    accepted :
        (index : ℕ) (raw : Json) (f : FactInput) (t : Tally) (o : Outcome × String)
        (before after : Tables)
        → E.model_validate raw ≡ valid f
        → Inserted E ctx f o.0 o.1 before after
        → Progress E ctx index (raw ∷ []) t (accept t o) before after
    unfolding accept rejections
    accepted index raw f t (created, id) before after v (fresh new _ named grown stamped apart _) =
        record {
          news = new ∷ [];
          grown = grown;
          made = ((raw, inl refl, f, v, stamped), tt);
          unlike = (apart, tt);
          created_are = rw named;
          invalid_are = rw v (sym (append-nil t.invalid));
          deduped_from = λ i m. inl m;
          counted = omega (arith, length-append t.created (id ∷ []));
          touched_all =
              omega (arith, length-append t.created (id ∷ []), length-append t.touched (id ∷ []));
        }
    accepted index raw f t (deduped, id) before after v (fresh new made _ _ _ _ _) = cc
    accepted index raw f t (created, id) before after v (existing r key made _ _ _ _ _) = cc
    accepted index raw f t (deduped, id) before after v (existing r key _ named kept keyed m has) =
        Progress-still E ctx index raw t (accept t (deduped, id)) before after kept refl
          (rw v (sym (append-nil t.invalid)))
          (λ i k. elim (Has-append i t.deduped (id ∷ []) k) [
            | inl old ↦ inl old
            | inr (inl e) ↦ inr (r, rw kept m, e ∙ named, raw, inl refl, f, v, key, keyed, has)
            | inr (inr none_left) ↦ absurd none_left
          ])
          (omega (arith, length-append t.deduped (id ∷ [])))
          (omega (arith, length-append t.deduped (id ∷ []), length-append t.touched (id ∷ [])))

    remember_one_returned :
        (index : ℕ) (raw : Json) (v : Validated) (t : Tally) (s : E.backend.State) (t' : Tally)
        (u : E.backend.State)
        → E.model_validate raw ≡ v
        → Runs (remember_one E ctx index t v) s t' u
        → Progress E ctx index (raw ∷ []) t t' (E.backend.tables s) (E.backend.tables u)
    unfolding remember_one
    remember_one_returned index raw (invalid problems) t s t' u e h =
        let (same, kept) = Runs-pure (reject t index problems) s t' u h in
        rw (← same, ← kept) (rejected E ctx index raw problems t (E.backend.tables s) e)
    remember_one_returned index raw (valid f) t s t' u e h =
        let (o, v, went, rest) =
          Runs-bind (insert_fact E ctx f) (λ o. pure (accept t o)) s t' u h in
        let (same, kept) = Runs-pure (accept t o) v t' u rest in
        rw (← same, ← kept)
          (accepted index raw f t o (E.backend.tables s) (E.backend.tables v) e
            (insert_fact_returned E L.lawful ctx f who s o v went))

    pub remember_loop_returned :
        (facts : List Json) (index : ℕ) (t : Tally) (s : E.backend.State) (t' : Tally)
        (u : E.backend.State)
        → Runs (remember_loop E ctx index facts t) s t' u
        → Progress E ctx index facts t t' (E.backend.tables s) (E.backend.tables u)
    unfolding remember_loop
    remember_loop_returned [] index t s t' u h =
        let (same, kept) = Runs-pure t s t' u h in
        rw (← same, ← kept) (nothing E ctx index t (E.backend.tables s))
    remember_loop_returned (raw ∷ facts) index t s t' u h =
        let (mid, v, one, rest) =
          Runs-bind (remember_one E ctx index t (E.model_validate raw))
            (λ m. remember_loop E ctx (index + 1) facts m) s t' u h in
        Progress-cons E ctx index raw facts t mid t' (E.backend.tables s) (E.backend.tables v)
          (E.backend.tables u)
          (remember_one_returned index raw (E.model_validate raw) t s mid v refl one)
          (remember_loop_returned facts (index + 1) mid v t' u rest)

  -- What the call has stored and says: the created ids are those of the new rows, which are made
  -- from facts that were sent, the deduped ids those of facts that had a key; the counts are the
  -- lengths; the invalid entries are exactly the facts that fail the validation, under their index;
  -- and each fact is counted once.
  pub record Batch (facts : List Json) (answer : Remembered) (before after : Tables) : Type 0 where
    pub ctx : ToolContext
    pub mid : Tables
    pub begun :
        Begun E "remember_facts"
          (object (field "facts" (array (items_of facts)) end))
          before
          ctx
          mid
    pub news : List FactRow
    pub touched : List String
    pub stored :
        after
        ≡ logged E ctx touched (let r : Tables = record mid { facts = mid.facts ++ news } in r)
    pub made : All (MadeFrom E ctx facts) news
    -- The ids of the new rows are new.
    pub unlike : All (Unlike E mid.facts) news
    pub created_are : answer.created ≡ ids news
    -- Each deduped id is that of a stored fact of the org, which has the key of a fact that was sent.
    pub deduped_are :
        (id : String)
        → Has id answer.deduped
        → RepeatedBy E ctx facts (record mid { facts = mid.facts ++ news }) id
    pub invalid_are : answer.invalid ≡ rejections E 0 facts
    pub counts_are :
        (answer.counts.created ≡ length answer.created)
        × (answer.counts.deduped ≡ length answer.deduped)
        × (answer.counts.invalid ≡ length answer.invalid)
    pub each_once :
        answer.counts.created + answer.counts.deduped + answer.counts.invalid ≡ length facts
    pub touched_all : length touched ≡ answer.counts.created + answer.counts.deduped
    pub source_is : answer.connector_source ≡ ctx.connector_source

  -- A call of `remember_facts` that returns has added rows made from valid facts that were sent,
  -- in the caller's org and under ids that were free, and one audit row, and changed no other
  -- fact. The created ids are those of the new rows; each deduped id is that of a stored fact of
  -- the org which has the key of a valid fact that was sent; the invalid entries are exactly the
  -- facts that fail the validation, with their indexes; the three counts are the lengths of the
  -- lists and add up to the number of facts sent; as many ids are audited as facts were created or
  -- deduped.
  pub remember_facts_returned :
      (facts : List Json) (s : E.backend.State) (answer : Remembered) (t : E.backend.State)
      → Runs (remember_facts E facts) s answer t
      → Batch facts answer (E.backend.tables s) (E.backend.tables t)
  unfolding remember_facts remembered
  remember_facts_returned facts s answer t h =
      let args = object (field "facts" (array (items_of facts)) end) in
      let (ctx, u, b, rest) =
        begin_then_returned E L "remember_facts" args
          (λ c. remember_loop E c 0 facts empty >>= λ tally.
            finish E c tally.touched >> pure (remembered c tally))
          s answer t h in
      let (tally, v, looped, last) =
        Runs-bind (remember_loop E ctx 0 facts empty)
          (λ tally. finish E ctx tally.touched >> pure (remembered ctx tally)) u answer t rest in
      let p = remember_loop_returned ctx b.subject facts 0 empty u tally v looped in
      let (same, audited) =
        finish-pure_returned E L ctx tally.touched (remembered ctx tally) v answer t b.subject
          last in
      rw same (record {
        ctx = ctx;
        mid = E.backend.tables u;
        begun = b;
        news = p.news;
        touched = tally.touched;
        stored = rw p.grown at audited;
        made = p.made;
        unlike = p.unlike;
        created_are = p.created_are;
        deduped_are = λ id m. elim (p.deduped_from id m) [
          | inl none_left ↦ absurd none_left
          | inr found ↦ rw p.grown at found
        ];
        invalid_are = p.invalid_are;
        counts_are = (refl, refl, refl);
        each_once = omega (arith, p.counted);
        touched_all = omega (arith, p.touched_all);
        source_is = refl;
      })
