-- ===== src/Base/Lists.antt =====
-- Lists measured by native numbers, and predicates on lists that compute to tuples and sums.
use Prim.Native.Nat.{ℕ, zero, suc, ◌+◌, ◌≤◌}
use Prim.Native.String.{String}
use mathlib.Core.Path.{◌≡◌, refl, ap}
use mathlib.Core.Logic.{◌⊎◌, inl, inr}
use mathlib.Core.Bool.{Bool, true, false, ◌||◌}
use mathlib.Core.List.{List, [], ◌∷◌, ◌++◌, map}
use native.Mathlib.Omega.{arith}
use text.Mathlib.Text.{◌==◌}
use text.Mathlib.TextEquality.{eq_iff}
use murray_context_ledger_mc.Base.Tests.{if◌then◌else◌}

module _ {ℓ} {A : Type ℓ} where
  abbrev pub length : List A → ℕ
  length [] = 0
  length (x ∷ xs) = suc (length xs)

  abbrev pub take : ℕ → List A → List A
  take zero xs = []
  take (suc n) [] = []
  take (suc n) (x ∷ xs) = x ∷ take n xs

  -- Python's `[x for x in xs if p(x)]`
  abbrev pub keep : (A → Bool) → List A → List A
  keep p [] = []
  keep p (x ∷ xs) = if p x then x ∷ keep p xs else keep p xs

  abbrev pub any : (A → Bool) → List A → Bool
  any p [] = false
  any p (x ∷ xs) = p x || any p xs

  abbrev pub All {κ} : (A → Type κ) → List A → Type κ
  All P [] = Unit
  All P (x ∷ xs) = P x × All P xs

  pub length-append : (xs ys : List A) → length (xs ++ ys) ≡ length xs + length ys
  length-append [] ys = omega arith
  length-append (x ∷ xs) ys = omega (arith, length-append xs ys)

  pub length-take : (n : ℕ) (xs : List A) → length (take n xs) ≤ n
  length-take zero xs = omega arith
  length-take (suc n) [] = omega arith
  length-take (suc n) (x ∷ xs) = omega (arith, length-take n xs)

  pub keep_same : (p q : A → Bool) (xs : List A) → ((x : A) → p x ≡ q x) → keep p xs ≡ keep q xs
  keep_same p q [] e = refl
  keep_same p q (x ∷ xs) e = rw (e x, keep_same p q xs e) refl

  pub any_same : (p q : A → Bool) (xs : List A) → ((x : A) → p x ≡ q x) → any p xs ≡ any q xs
  any_same p q [] e = refl
  any_same p q (x ∷ xs) e = rw (e x, any_same p q xs e) refl

module _ {A : Type 0} where
  -- `x` stands in the list.
  abbrev pub Has : A → List A → Type 0
  Has x [] = ⊥
  Has x (y ∷ ys) = (x ≡ y) ⊎ Has x ys

  pub All-Has {κ} : (P : A → Type κ) (x : A) (xs : List A) → All P xs → Has x xs → P x
  All-Has P x [] h m = absurd m
  All-Has P x (y ∷ ys) h (inl e) = rw e h.0
  All-Has P x (y ∷ ys) h (inr m) = All-Has P x ys h.1 m

  pub Has-append_right : (x : A) (xs ys : List A) → Has x ys → Has x (xs ++ ys)
  Has-append_right x [] ys m = m
  Has-append_right x (y ∷ xs) ys m = inr (Has-append_right x xs ys m)

  pub Has-append_left : (x : A) (xs ys : List A) → Has x xs → Has x (xs ++ ys)
  Has-append_left x [] ys m = absurd m
  Has-append_left x (y ∷ xs) ys (inl e) = inl e
  Has-append_left x (y ∷ xs) ys (inr m) = inr (Has-append_left x xs ys m)

  pub All-append : (P : A → Type 0) (xs ys : List A) → All P xs → All P ys → All P (xs ++ ys)
  All-append P [] ys hx hy = hy
  All-append P (x ∷ xs) ys hx hy = (hx.0, All-append P xs ys hx.1 hy)

  pub All-take : (P : A → Type 0) (n : ℕ) (xs : List A) → All P xs → All P (take n xs)
  All-take P zero xs h = tt
  All-take P (suc n) [] h = tt
  All-take P (suc n) (x ∷ xs) h = (h.0, All-take P n xs h.1)

  pub All-prefix : (P : A → Type 0) (xs ys : List A) → All P (xs ++ ys) → All P xs
  All-prefix P [] ys h = tt
  All-prefix P (x ∷ xs) ys h = (h.0, All-prefix P xs ys h.1)

  pub Has-append : (x : A) (xs ys : List A) → Has x (xs ++ ys) → Has x xs ⊎ Has x ys
  Has-append x [] ys m = inr m
  Has-append x (y ∷ xs) ys (inl e) = inl (inl e)
  Has-append x (y ∷ xs) ys (inr m) = elim (Has-append x xs ys m) [
    | inl l ↦ inl (inr l)
    | inr r ↦ inr r
  ]

module _ {A B : Type 0} where
  pub Has-map_inv :
      (f : A → B) (y : B) (xs : List A) → Has y (map f xs) → (x : A) × Has x xs × (y ≡ f x)
  Has-map_inv f y [] m = absurd m
  Has-map_inv f y (x ∷ xs) (inl e) = (x, inl (λ i. x), e)
  Has-map_inv f y (x ∷ xs) (inr m) = let (z, mz, e) = Has-map_inv f y xs m in (z, inr mz, e)

  pub Has-map : (f : A → B) (x : A) (xs : List A) → Has x xs → Has (f x) (map f xs)
  Has-map f x [] m = absurd m
  Has-map f x (y ∷ ys) (inl e) = inl (ap f e)
  Has-map f x (y ∷ ys) (inr m) = inr (Has-map f x ys m)

-- Python's `x in xs` on texts.
abbrev pub contains : List String → String → Bool
contains xs x = any (λ y. x == y) xs

pub contains→Has : (xs : List String) (x : String) → contains xs x ≡ true → Has x xs
contains→Has [] x h = cc
contains→Has (y ∷ ys) x h = ground (arith, eq_iff x y, contains→Has ys x)

pub Has→contains : (xs : List String) (x : String) → Has x xs → contains xs x ≡ true
Has→contains [] x m = absurd m
Has→contains (y ∷ ys) x (inl e) = ground (arith, eq_iff x y)
Has→contains (y ∷ ys) x (inr m) = ground (arith, Has→contains ys x m)
