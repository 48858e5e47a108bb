-- ===== src/Effect.antt =====
-- Calls that change the database and may raise. What was committed before a raise stays
-- committed, so the state comes back beside the error too.
pub mod Runs
pub mod Keeps
pub mod Answers
use murray_context_ledger_mc.Base.{String}

-- The exceptions that leave a tool: a `ValueError` with its message, PostgREST's `APIError` with
-- the code that Postgres gave it, an `IndexError` of `rows[0]`, and any other failure of a call.
pub data Error : Type 0 where
  value_error : String → Error
  api_error : String → Error
  index_error : Error
  other_error : String → Error

pub data Result (A : Type 0) : Type 0 where
  ok : A → Result A
  err : Error → Result A

abbrev pub Exec : Type 0 → Type 0 → Type 0
Exec S A = S → Result A × S

module _ {S A : Type 0} where
  abbrev pub pure : A → Exec S A
  pure a s = (ok a, s)

  abbrev pub raise : Error → Exec S A
  raise e s = (err e, s)

module _ {S A B : Type 0} where
  -- The rest of a block, after a call that ended as `r`.
  abbrev pub continue : Result A → (A → Exec S B) → Exec S B
  continue (ok a) f s = f a s
  continue (err e) f s = (err e, s)

  infixl 10 ◌>>=◌ ◌>>◌
  abbrev pub ◌>>=◌ : Exec S A → (A → Exec S B) → Exec S B
  ◌>>=◌ m f s = let (r, s') = m s in continue r f s'

  abbrev pub ◌>>◌ : Exec S A → Exec S B → Exec S B
  m >> n = m >>= λ _. n

module _ {S A : Type 0} where
  -- `try: m except E as e: h(e)`
  abbrev pub handle : Result A → (Error → Exec S A) → Exec S A
  handle (ok a) h s = (ok a, s)
  handle (err e) h s = h e s

  abbrev pub catch : Exec S A → (Error → Exec S A) → Exec S A
  catch m h s = let (r, s') = m s in handle r h s'
