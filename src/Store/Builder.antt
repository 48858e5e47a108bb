-- ===== src/Store/Builder.antt =====
-- The calls that extend a query: each adds to what is there.
use murray_context_ledger_mc.Base.{ℕ, some, [], ◌∷◌, ◌++◌}
use murray_context_ledger_mc.Store.Query.{FactFilter, FactQuery, Order}

abbrev pub filtered : FactQuery → FactFilter → FactQuery
filtered q f = record q { filters = q.filters ++ (f ∷ []) }

abbrev pub ordered : FactQuery → Order → FactQuery
ordered q o = record q { orders = q.orders ++ (o ∷ []) }

abbrev pub limited : FactQuery → ℕ → FactQuery
limited q n = record q { limit = some n }
