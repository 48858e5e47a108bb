-- ===== src/Effect/Keeps.antt =====
-- What a call does to the state whatever comes of it: a relation on states, through the ways to
-- build a call.
use murray_context_ledger_mc.Base.{◌≡◌, refl, Bool, true, false, if◌then◌else◌}
use murray_context_ledger_mc.Effect.{
  Error, Result, ok, err, Exec, pure, raise, continue, ◌>>=◌, handle, catch,
}
use murray_context_ledger_mc.Effect.Runs.{Runs}

module _ {S : Type 0} (R : S → S → Type 0) where
  -- The state that a call leaves, returned or raised, is related to the one it found.
  abbrev pub Keeps : {A : Type 0} → Exec S A → Type 0
  Keeps m = (s : S) → R s (m s).1

  pub Keeps-if :
      {A : Type 0} (c : Bool) (m n : Exec S A) → Keeps m → Keeps n → Keeps (if c then m else n)
  Keeps-if true m n k l = k
  Keeps-if false m n k l = l

  module _ (R-refl : (s : S) → R s s) where
    pub Keeps-pure : {A : Type 0} (a : A) → Keeps (pure a)
    Keeps-pure a s = R-refl s

    pub Keeps-raise : (A : Type 0) (e : Error) → Keeps {A = A} (raise e)
    Keeps-raise A e s = R-refl s

  module _ (R-trans : (s t u : S) → R s t → R t u → R s u) where
    Keeps-continue :
        {A B : Type 0} (r : Result A) (f : A → Exec S B) (s u : S)
        → R s u
        → ((a : A) → r ≡ ok a → R u (f a u).1)
        → R s (continue r f u).1
    Keeps-continue (ok a) f s u k l = R-trans s u (f a u).1 k (l a refl)
    Keeps-continue (err e) f s u k l = k

    -- The second call may rely on what the first returned, and on the state that it left.
    pub Keeps-bind_at :
        {A B : Type 0} (m : Exec S A) (f : A → Exec S B) (s : S)
        → R s (m s).1
        → ((a : A) (u : S) → Runs m s a u → R u (f a u).1)
        → R s ((m >>= f) s).1
    Keeps-bind_at m f s k l =
        Keeps-continue (m s).0 f s (m s).1 k λ a e. l a (m s).1 (λ i. (e i, (m s).1))

    pub Keeps-bind :
        {A B : Type 0} (m : Exec S A) (f : A → Exec S B)
        → Keeps m
        → ((a : A) → Keeps (f a))
        → Keeps (m >>= f)
    Keeps-bind m f k l s = Keeps-bind_at m f s (k s) λ a u ran. l a u

    Keeps-handle :
        {A : Type 0} (r : Result A) (h : Error → Exec S A) (s u : S)
        → R s u
        → ((e : Error) → R u (h e u).1)
        → R s (handle r h u).1
    Keeps-handle (ok a) h s u k l = k
    Keeps-handle (err e) h s u k l = R-trans s u (h e u).1 k (l e)

    pub Keeps-catch :
        {A : Type 0} (m : Exec S A) (h : Error → Exec S A)
        → Keeps m
        → ((e : Error) → Keeps (h e))
        → Keeps (catch m h)
    Keeps-catch m h k l s = Keeps-handle (m s).0 h s (m s).1 (k s) λ e. l e (m s).1
