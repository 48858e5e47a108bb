-- ===== src/Server/Tools/Remember.antt =====
-- The tool `remember_facts`.
pub mod Progress
pub mod Batch
pub mod Broken
pub mod Walk
use murray_context_ledger_mc.Base.{ℕ, ◌+◌, String, Option, List, [], ◌∷◌, ◌++◌, length}
use murray_context_ledger_mc.Effect.{pure, ◌>>=◌, ◌>>◌}
use murray_context_ledger_mc.Json.{Json, Items, nil, item, array, object, field, end}
use murray_context_ledger_mc.Server.Env.{Env, Validated, valid, invalid, Problem}
use murray_context_ledger_mc.Server.Context.{ToolContext, Call, begin, finish}
use murray_context_ledger_mc.Server.Write.{
  Outcome, created, deduped, FieldError, validation_errors, insert_fact,
}

-- One entry of the `invalid` list.
pub record Rejected : Type 0 where
  pub index : ℕ
  pub errors : List FieldError

-- The four lists that the loop appends to.
pub record Tally : Type 0 where
  pub created : List String
  pub deduped : List String
  pub invalid : List Rejected
  pub touched : List String

abbrev pub empty : Tally
empty = record { created = []; deduped = []; invalid = []; touched = [] }

pub record Counts : Type 0 where
  pub created : ℕ
  pub deduped : ℕ
  pub invalid : ℕ

pub record Remembered : Type 0 where
  pub created : List String
  pub deduped : List String
  pub invalid : List Rejected
  pub counts : Counts
  pub connector_source : Option String

pub items_of : List Json → Items
items_of [] = nil
items_of (x ∷ xs) = item x (items_of xs)

unfoldable pub reject : Tally → ℕ → List Problem → Tally
reject t index problems = record t {
  invalid = t.invalid ++ (record { index = index; errors = validation_errors problems } ∷ []);
}

unfoldable pub accept : Tally → Outcome × String → Tally
accept t (created, fact_id) = record t {
  created = t.created ++ (fact_id ∷ []);
  touched = t.touched ++ (fact_id ∷ []);
}
accept t (deduped, fact_id) = record t {
  deduped = t.deduped ++ (fact_id ∷ []);
  touched = t.touched ++ (fact_id ∷ []);
}

pub remembered : ToolContext → Tally → Remembered
remembered ctx t = record {
  created = t.created;
  deduped = t.deduped;
  invalid = t.invalid;
  counts = record {
    created = length t.created;
    deduped = length t.deduped;
    invalid = length t.invalid;
  };
  connector_source = ctx.connector_source;
}

module _ (E : Env) where
  -- One round of the loop, on the outcome of the validation.
  remember_one : ToolContext → ℕ → Tally → Validated → Call E Tally
  unfolding reject accept
  remember_one ctx index t (invalid problems) = pure (reject t index problems)
  remember_one ctx index t (valid fact) = do
    outcome ← insert_fact E ctx fact
    pure (accept t outcome)

  unfoldable pub remember_loop : ToolContext → ℕ → List Json → Tally → Call E Tally
  unfolding remember_one
  remember_loop ctx index [] t = pure t
  remember_loop ctx index (raw ∷ facts) t = do
    t' ← remember_one ctx index t (E.model_validate raw)
    remember_loop ctx (index + 1) facts t'

  unfoldable pub remember_facts : List Json → Call E Remembered
  unfolding remember_loop remembered items_of
  remember_facts facts = do
    ctx ← begin E "remember_facts" (object (field "facts" (array (items_of facts)) end))
    t ← remember_loop ctx 0 facts empty
    finish E ctx t.touched
    pure (remembered ctx t)
