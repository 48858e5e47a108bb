-- ===== src/Effect/Answers.antt =====
-- Calls that end with an answer, with a message for the caller, or with an error of the database
-- that is no unique violation, and never otherwise.
use murray_context_ledger_mc.Effect.Runs.{Runs}
use murray_context_ledger_mc.Base.{◌≡◌, refl, String, ◌==◌, false}
use murray_context_ledger_mc.Effect.{
  Error, value_error, api_error, index_error, other_error, Result, ok, err, Exec, pure, raise,
  continue, ◌>>=◌, catch,
}

-- A result, the message of a `ValueError`, or an SQL state other than that of a unique violation.
abbrev pub IsAnswer : {A : Type 0} → Result A → Type 0
IsAnswer (ok a) = Unit
IsAnswer (err (value_error message)) = Unit
IsAnswer (err (api_error code)) = (code == "23505") ≡ false
IsAnswer (err index_error) = ⊥
IsAnswer (err (other_error name)) = ⊥

module _ {S : Type 0} where
  IsAnswer-continue :
      {A B : Type 0} (r : Result A) (f : A → Exec S B) (a : A) (u : S)
      → r ≡ ok a
      → IsAnswer (f a u).0
      → IsAnswer (continue r f u).0
  IsAnswer-continue r f a u e h = rw e h

  -- A block whose first call has returned.
  pub IsAnswer-bind :
      {A B : Type 0} (m : Exec S A) (f : A → Exec S B) (s : S) (a : A)
      → (m s).0 ≡ ok a
      → IsAnswer (f a (m s).1).0
      → IsAnswer ((m >>= f) s).0
  IsAnswer-bind m f s a e h = IsAnswer-continue (m s).0 f a (m s).1 e h

  IsAnswer-go_on :
      {A B : Type 0} (r : Result A) (f : A → Exec S B) (u : S)
      → IsAnswer r
      → ((a : A) → r ≡ ok a → IsAnswer (f a u).0)
      → IsAnswer (continue r f u).0
  IsAnswer-go_on (ok a) f u h k = k a refl
  IsAnswer-go_on (err (value_error message)) f u h k = tt
  IsAnswer-go_on (err (api_error code)) f u h k = h
  IsAnswer-go_on (err index_error) f u h k = absurd h
  IsAnswer-go_on (err (other_error name)) f u h k = absurd h

  -- A block, if its first call ends so, and the rest does wherever that has returned.
  pub IsAnswer-then :
      {A B : Type 0} (m : Exec S A) (f : A → Exec S B) (s : S)
      → IsAnswer (m s).0
      → ((a : A) (u : S) → Runs m s a u → IsAnswer (f a u).0)
      → IsAnswer ((m >>= f) s).0
  IsAnswer-then m f s h k =
      IsAnswer-go_on (m s).0 f (m s).1 h (λ a e. k a (m s).1 (λ i. (e i, (m s).1)))

  pub IsAnswer-caught :
      {A : Type 0} (m : Exec S A) (h : Error → Exec S A) (s : S) (e : Error)
      → (m s).0 ≡ err e
      → IsAnswer (h e (m s).1).0
      → IsAnswer (catch m h s).0
  IsAnswer-caught m h s e failed k = rw failed k

  pub IsAnswer-tried :
      {A : Type 0} (m : Exec S A) (h : Error → Exec S A) (s : S) (a : A)
      → (m s).0 ≡ ok a
      → IsAnswer (catch m h s).0
  IsAnswer-tried m h s a e = rw e tt

  module _ (Inv : S → Type 0) where
    -- From a state with the invariant the call ends so, in a state with the invariant.
    abbrev pub Settles : {A : Type 0} → Exec S A → Type 0
    Settles m = (s : S) → Inv s → IsAnswer (m s).0 × Inv (m s).1

    pub Settles-pure : {A : Type 0} (a : A) → Settles (pure a)
    Settles-pure a s i = (tt, i)

    pub Settles-refuse :
        (A : Type 0) (message : String) → Settles {A = A} (raise (value_error message))
    Settles-refuse A message s i = (tt, i)

    Settles-continue :
        {A B : Type 0} (r : Result A) (f : A → Exec S B) (u : S)
        → IsAnswer r
        → Inv u
        → ((a : A) → IsAnswer (f a u).0 × Inv (f a u).1)
        → IsAnswer (continue r f u).0 × Inv (continue r f u).1
    Settles-continue (ok a) f u h i k = k a
    Settles-continue (err (value_error message)) f u h i k = (tt, i)
    Settles-continue (err (api_error code)) f u h i k = (h, i)
    Settles-continue (err index_error) f u h i k = absurd h
    Settles-continue (err (other_error name)) f u h i k = absurd h

    pub Settles-bind :
        {A B : Type 0} (m : Exec S A) (f : A → Exec S B)
        → Settles m
        → ((a : A) → Settles (f a))
        → Settles (m >>= f)
    Settles-bind m f k l s i =
        let (h, j) = k s i in Settles-continue (m s).0 f (m s).1 h j (λ a. l a (m s).1 j)
