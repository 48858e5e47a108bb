-- ===== src/Scripts/RestProxy/Paths.antt =====
-- Which paths the proxy changes, and how.
use text.Mathlib.TextLemmas.{nil-append, cons-append, append-nil, append_assoc, append_cancel_left}
use murray_context_ledger_mc.Base.{
  ◌≡◌, refl, sym, ap, ◌∙◌, ℕ, zero, suc, ◌+◌, String, ◌<>◌, ◌==◌, eq_iff, true, false, ◌||◌, size,
  size-append, prefix_of, if◌then◌else◌, both_ways, Bool-cases, inl, inr, arith,
}
use murray_context_ledger_mc.Scripts.RestProxy.{prefix, from, starts_with, upstream_path}

-- What becomes of the part behind the prefix: the root where it is empty, a path where it is one, a
-- query of the root; another name that only begins alike is no path of the API.
abbrev pub routed : String → String → String
routed p t =
    if t == ""
    then "/"
    else if starts_with t "/"
    then t
    else if starts_with t "?"
    then "/" <> t
    else p <> t

-- The code for any prefix.
abbrev strip_with : String → String → String
strip_with p path =
    if path == p || path == p <> "/"
    then "/"
    else if starts_with path (p <> "/")
    then from (size p) path
    else if starts_with path (p <> "?")
    then "/" <> from (size p) path
    else path

from-append : (p t : String) → from (size p) (p <> t) ≡ t
from-append String.[] t = nil-append t
from-append (String.◌∷◌ c p) t = rw cons-append (from-append p t)

prefix_of-append : (p t : String) (n : ℕ) → prefix_of (size p + n) (p <> t) ≡ p <> prefix_of n t
prefix_of-append String.[] t n =
    rw (nil-append t, nil-append (prefix_of n t)) (ap (λ m. prefix_of m t) (zero_add n))
  where
    zero_add : (n : ℕ) → 0 + n ≡ n
    zero_add n = omega arith
prefix_of-append (String.◌∷◌ c p) t n =
    rw (cons-append, cons-append, suc_add (size p) n) (rw (prefix_of-append p t n) refl)
  where
    suc_add : (a b : ℕ) → suc a + b ≡ suc (a + b)
    suc_add a b = omega arith

eq-append : (p a x : String) → ((p <> a) == (p <> x)) ≡ (a == x)
eq-append p a x =
    both_ways _ _ (λ h. (eq_iff a x).1 (append_cancel_left p a x ((eq_iff (p <> a) (p <> x)).0 h)))
      (λ h. (eq_iff (p <> a) (p <> x)).1 (ap (λ s. p <> s) ((eq_iff a x).0 h)))

-- Behind a prefix, the tests are those of the rest.
starts_with-append : (p t x : String) → starts_with (p <> t) (p <> x) ≡ starts_with t x
starts_with-append p t x =
    ap (λ n. prefix_of n (p <> t) == (p <> x)) (size-append p x)
    ∙ ap (λ s. s == (p <> x)) (prefix_of-append p t (size x))
    ∙ eq-append p (prefix_of (size x) t) x

eq-append_nil : (p t : String) → ((p <> t) == p) ≡ (t == "")
eq-append_nil p t = ap (λ q. (p <> t) == q) (sym (append-nil p)) ∙ eq-append p t ""

root_starts : (t : String) → (t == "/") ≡ true → t ≡ "/"
root_starts t h = (eq_iff t "/").0 h

behind_prefix : (p t : String) → strip_with p (p <> t) ≡ routed p t
behind_prefix p t =
    rw
      (
        eq-append_nil p t,
        eq-append p t "/",
        starts_with-append p t "/",
        starts_with-append p t "?",
        from-append p t,
      )
      (elim (Bool-cases (t == "")) [
        | inl e ↦ rw e refl
        | inr e ↦ elim (Bool-cases (t == "/")) [
          | inl d ↦ rw (e, d, root_starts t d) refl
          | inr d ↦ rw (e, d) refl
        ]
      ])

prefix_of-from : (n : ℕ) (s : String) → prefix_of n s <> from n s ≡ s
prefix_of-from zero s = nil-append s
prefix_of-from (suc n) String.[] = nil-append ""
prefix_of-from (suc n) (String.◌∷◌ c s) =
    rw cons-append (ap (λ r. String.◌∷◌ c r) (prefix_of-from n s))

prefix_of-whole : (p t : String) → prefix_of (size p) (p <> t) ≡ p
prefix_of-whole String.[] t = refl
prefix_of-whole (String.◌∷◌ c p) t = rw cons-append (ap (λ r. String.◌∷◌ c r) (prefix_of-whole p t))

starts_with-own : (p t : String) → starts_with (p <> t) p ≡ true
starts_with-own p t = (eq_iff (prefix_of (size p) (p <> t)) p).1 (prefix_of-whole p t)

-- A text that starts with another is that one and the rest of it.
split_at : (p path : String) → starts_with path p ≡ true → path ≡ p <> from (size p) path
split_at p path h =
    sym (prefix_of-from (size p) path)
    ∙ ap (λ s. s <> from (size p) path) ((eq_iff (prefix_of (size p) path) p).0 h)

-- Nor does a path start with more than the prefix where it does not start with that.
no_longer : (p x path : String) → starts_with path p ≡ false → starts_with path (p <> x) ≡ false
no_longer p x path h = elim (Bool-cases (starts_with path (p <> x))) [
  | inl e ↦
      let whole = split_at (p <> x) path e ∙ append_assoc p x (from (size (p <> x)) path) in
      let starts : starts_with path p ≡ true =
        ap (λ s. starts_with s p) whole ∙ starts_with-own p (x <> from (size (p <> x)) path) in
      absurd (cc)
  | inr e ↦ e
]

not_same : (p x path : String) → starts_with path p ≡ false → (path == p <> x) ≡ false
not_same p x path h = elim (Bool-cases (path == p <> x)) [
  | inl e ↦
      let starts : starts_with path p ≡ true =
        ap (λ s. starts_with s p) ((eq_iff path (p <> x)).0 e) ∙ starts_with-own p x in
      absurd (cc)
  | inr e ↦ e
]

elsewhere : (p path : String) → starts_with path p ≡ false → strip_with p path ≡ path
elsewhere p path h =
    let other : (path == p) ≡ false =
      ap (λ q. path == q) (sym (append-nil p)) ∙ not_same p "" path h in
    rw (other, not_same p "/" path h, no_longer p "/" path h, no_longer p "?" path h) refl

-- What is left of a path behind a prefix, where it starts with that.
abbrev pub behind : String → String → String
behind p path = if starts_with path p then routed p (from (size p) path) else path

strip_with-behind : (p path : String) → strip_with p path ≡ behind p path
strip_with-behind p path = elim (Bool-cases (starts_with path p)) [
  | inl h ↦ rw h (ap (strip_with p) (split_at p path h) ∙ behind_prefix p (from (size p) path))
  | inr h ↦ rw h (elsewhere p path h)
]

-- The code's tests of the whole path come to tests of what is behind the prefix.
pub upstream_path-behind : (path : String) → upstream_path path ≡ behind prefix path
unfolding upstream_path
upstream_path-behind path = strip_with-behind prefix path
