-- ===== src/Server/Write/Idempotent.antt =====
-- The dedupe key: unique within an org, and what sending a fact again does.
use murray_context_ledger_mc.Base.{
  ◌≡◌, refl, sym, ap, ◌∙◌, inl, String, some, [], ◌∷◌, Has, Has-append_right,
}
use murray_context_ledger_mc.Effect.Runs.{Runs}
use murray_context_ledger_mc.Schemas.{FactInput}
use murray_context_ledger_mc.Store.{Tables, FactRow}
use murray_context_ledger_mc.Store.Change.{UniqueKeys}
use murray_context_ledger_mc.Store.Change.Facts.{UniqueKeys-append}
use murray_context_ledger_mc.Store.Laws.{IsLawful}
use murray_context_ledger_mc.Server.Env.{Env}
use murray_context_ledger_mc.Server.Context.{ToolContext}
use murray_context_ledger_mc.Server.Write.{Outcome, deduped, fact_row, insert_fact}
use murray_context_ledger_mc.Server.Write.Inserted.{
  Inserted, fresh, existing, HasKey, insert_fact_returned,
}

module _ (E : Env) (ctx : ToolContext) (fact : FactInput) where
  -- The effect of an insert keeps the keys unique.
  Inserted-UniqueKeys :
      (outcome : Outcome) (id : String) (before after : Tables)
      → Inserted E ctx fact outcome id before after
      → UniqueKeys before.facts
      → UniqueKeys after.facts
  unfolding fact_row
  Inserted-UniqueKeys outcome id before after (fresh new _ _ grown stamped _ alone) unique =
      rw grown (
        UniqueKeys-append before.facts new unique λ r key m k kn same.
          alone r m (key, sym stamped.dedupe_key ∙ kn, k, same ∙ stamped.org_id))
  Inserted-UniqueKeys outcome id before after (existing r key _ _ kept _ _ _) unique =
      rw kept unique

  -- Once an insert has returned, some row of the org has the key and the id that was answered.
  abbrev Holds : String → String → Tables → Type 0
  Holds key id t = (r : FactRow) × Has r t.facts × HasKey ctx key r × (r.id ≡ id)

  Inserted-Holds :
      (outcome : Outcome) (key id : String) (before after : Tables)
      → Inserted E ctx fact outcome id before after
      → fact.dedupe_key ≡ some key
      → Holds key id after
  unfolding fact_row
  Inserted-Holds outcome key id before after (fresh new _ named grown stamped _ _) keyed = (
    new,
    rw grown (Has-append_right new before.facts (new ∷ []) (inl refl)),
    (stamped.org_id, stamped.dedupe_key ∙ keyed),
    sym named,
  )
  Inserted-Holds outcome key id before after (existing r k _ named kept keyed' m has) keyed =
      let same : some k ≡ some key = sym keyed' ∙ keyed in
      (r, rw kept m, (has.0, has.1 ∙ same), sym named)

  again :
      (outcome : Outcome) (key id id' : String) (before after : Tables)
      → Inserted E ctx fact outcome id' before after
      → fact.dedupe_key ≡ some key
      → UniqueKeys before.facts
      → Holds key id before
      → (outcome ≡ deduped) × (id' ≡ id) × (after ≡ before)
  unfolding fact_row
  again outcome key id id' before after (fresh new _ _ _ stamped _ alone) keyed unique
        (q, m, has, named) =
      absurd (alone q m (key, keyed, has.1, has.0))
  again outcome key id id' before after (existing r k made named' kept keyed' m' has') keyed unique
        (q, m, has, named) =
      let same : some k ≡ some key = sym keyed' ∙ keyed in
      let one : r ≡ q = unique r q key m' m (has'.1 ∙ same) has.1 (has'.0 ∙ sym has.0) in
      (made, named' ∙ ap (λ (x : FactRow). x.id) one ∙ named, kept)

  module _ (L : IsLawful E.backend) (who : E.backend.subject ctx.db ≡ some ctx.user_sub) where
    -- Sending a fact with a key a second time, where the keys of each org are unique: if both
    -- calls of `_insert_fact` return, the second answers "deduped" with the id that the first
    -- answered, and changes nothing.
    pub insert_fact_twice :
        (key : String) (s : E.backend.State) (o : Outcome × String) (t : E.backend.State)
        (o' : Outcome × String) (u : E.backend.State)
        → fact.dedupe_key ≡ some key
        → UniqueKeys (E.backend.tables s).facts
        → Runs (insert_fact E ctx fact) s o t
        → Runs (insert_fact E ctx fact) t o' u
        → (o'.0 ≡ deduped) × (o'.1 ≡ o.1) × (E.backend.tables u ≡ E.backend.tables t)
    insert_fact_twice key s o t o' u keyed unique first second =
        let done = insert_fact_returned E L ctx fact who s o t first in
        again o'.0 key o.1 o'.1 (E.backend.tables t) (E.backend.tables u)
          (insert_fact_returned E L ctx fact who t o' u second) keyed
          (Inserted-UniqueKeys o.0 o.1 (E.backend.tables s) (E.backend.tables t) done unique)
          (Inserted-Holds o.0 key o.1 (E.backend.tables s) (E.backend.tables t) done keyed)
