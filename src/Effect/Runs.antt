-- ===== src/Effect/Runs.antt =====
-- What must have happened in a call that returned: inversion of the ways to build one.
use murray_context_ledger_mc.Base.{◌≡◌, refl, ap, ◌⊎◌, inl, inr, Bool, true, false, if◌then◌else◌}
use murray_context_ledger_mc.Effect.{
  Error, Result, ok, err, Exec, pure, raise, continue, ◌>>=◌, handle, catch,
}

module _ {S A : Type 0} where
  -- From the state `s` the call returns `a` and leaves `t`.
  abbrev pub Runs : Exec S A → S → A → S → Type 0
  Runs m s a t = m s ≡ (ok a, t)

  pub Runs-result : (m : Exec S A) (s : S) (a : A) (t : S) → Runs m s a t → (m s).0 ≡ ok a
  Runs-result m s a t h = ap (λ (p : Result A × S). p.0) h

  pub Runs-state : (m : Exec S A) (s : S) (a : A) (t : S) → Runs m s a t → (m s).1 ≡ t
  Runs-state m s a t h = ap (λ (p : Result A × S). p.1) h

  pub Runs-pure : (a : A) (s : S) (b : A) (t : S) → Runs (pure a) s b t → (a ≡ b) × (s ≡ t)
  Runs-pure a s b t h = (cc, cc)

  pub Runs-raise : (e : Error) (s : S) (b : A) (t : S) → Runs (raise e) s b t → ⊥
  Runs-raise e s b t h = cc

module _ {S A B : Type 0} where
  Runs-continue :
      (r : Result A) (f : A → Exec S B) (s : S) (b : B) (t : S)
      → continue r f s ≡ (ok b, t)
      → (a : A) × (r ≡ ok a) × Runs (f a) s b t
  Runs-continue (ok a) f s b t h = (a, refl, h)
  Runs-continue (err e) f s b t h = cc

  pub Runs-bind :
      (m : Exec S A) (f : A → Exec S B) (s : S) (b : B) (t : S)
      → Runs (m >>= f) s b t
      → (a : A) × (u : S) × Runs m s a u × Runs (f a) u b t
  Runs-bind m f s b t h =
      let (a, e, rest) = Runs-continue (m s).0 f (m s).1 b t h in
      (a, (m s).1, (λ i. (e i, (m s).1)), rest)

module _ {S A : Type 0} where
  Runs-handle :
      (r : Result A) (h : Error → Exec S A) (s : S) (b : A) (t : S)
      → handle r h s ≡ (ok b, t)
      → ((r ≡ ok b) × (s ≡ t)) ⊎ ((e : Error) × (r ≡ err e) × Runs (h e) s b t)
  Runs-handle (ok a) h s b t e = inl (cc, cc)
  Runs-handle (err x) h s b t e = inr (x, refl, e)

  pub Runs-catch :
      (m : Exec S A) (h : Error → Exec S A) (s : S) (b : A) (t : S)
      → Runs (catch m h) s b t
      → Runs m s b t ⊎ ((e : Error) × (u : S) × (m s ≡ (err e, u)) × Runs (h e) u b t)
  Runs-catch m h s b t e = elim (Runs-handle (m s).0 h (m s).1 b t e) [
    | inl (p, q) ↦ inl (λ i. (p i, q i))
    | inr (x, p, q) ↦ inr (x, (m s).1, (λ i. (p i, (m s).1)), q)
  ]

  pub Runs-if :
      (c : Bool) (m n : Exec S A) (s : S) (b : A) (t : S)
      → Runs (if c then m else n) s b t
      → ((c ≡ true) × Runs m s b t) ⊎ ((c ≡ false) × Runs n s b t)
  Runs-if true m n s b t h = inl (refl, h)
  Runs-if false m n s b t h = inr (refl, h)

module _ {S A B : Type 0} where
  Fails-continue :
      (r : Result A) (f : A → Exec S B) (s : S) (e : Error) (t : S)
      → continue r f s ≡ (err e, t)
      → ((r ≡ err e) × (s ≡ t)) ⊎ ((a : A) × (r ≡ ok a) × (f a s ≡ (err e, t)))
  Fails-continue (ok a) f s e t h = inr (a, refl, h)
  Fails-continue (err x) f s e t h = inl (cc, cc)

  -- A block that raised did so in its first call, or after that returned.
  pub Fails-bind :
      (m : Exec S A) (f : A → Exec S B) (s : S) (e : Error) (t : S)
      → (m >>= f) s ≡ (err e, t)
      → (m s ≡ (err e, t)) ⊎ ((a : A) × (u : S) × Runs m s a u × (f a u ≡ (err e, t)))
  Fails-bind m f s e t h = elim (Fails-continue (m s).0 f (m s).1 e t h) [
    | inl (p, q) ↦ inl (λ i. (p i, q i))
    | inr (a, p, q) ↦ inr (a, (m s).1, (λ i. (p i, (m s).1)), q)
  ]
