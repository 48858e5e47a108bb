-- ===== src/Base/Text.antt =====
-- Python's str over the native texts: a text is walked by its code points.
use Prim.Native.Nat.{ℕ, zero, suc, ◌+◌, ◌/◌, ◌%◌, ◌<◌, min}
use Prim.Native.Char.{code}
use Prim.Native.String.{String, ◌++◌}
use mathlib.Core.Path.{◌≡◌, refl, ap}
use mathlib.Core.List.{List, [], ◌∷◌}
use mathlib.Core.Bool.{Bool, true, ◌&&◌, ◌||◌}
use mathlib.Core.Logic.{inl, inr}
use native.Mathlib.Omega.{arith}
use text.Mathlib.TextLemmas.{nil-append, cons-append}
use murray_context_ledger_mc.Base.Tests.{Bool-cases, if◌then◌else◌, ltb, leb, eqb}

-- `len(s)`
abbrev pub size : String → ℕ
size String.[] = 0
size (String.◌∷◌ c s) = suc (size s)

-- `s[:n]`
abbrev pub prefix_of : ℕ → String → String
prefix_of zero s = ""
prefix_of (suc n) String.[] = ""
prefix_of (suc n) (String.◌∷◌ c s) = String.◌∷◌ c (prefix_of n s)

-- `sep.join(parts)`
abbrev pub join_tail : String → List String → String
join_tail sep [] = ""
join_tail sep (p ∷ ps) = sep ++ (p ++ join_tail sep ps)

abbrev pub join : String → List String → String
join sep [] = ""
join sep (p ∷ ps) = p ++ join_tail sep ps

-- `str.isspace` of one code point.
unfoldable pub is_space : ℕ → Bool
is_space c =
    eqb c 32
    || (leb 9 c && leb c 13)
    || (leb 28 c && leb c 31)
    || eqb c 133
    || eqb c 160
    || eqb c 5760
    || (leb 8192 c && leb c 8202)
    || eqb c 8232
    || eqb c 8233
    || eqb c 8239
    || eqb c 8287
    || eqb c 12288

-- `not s.strip()`
unfoldable pub is_blank : String → Bool
unfolding is_space
is_blank String.[] = true
is_blank (String.◌∷◌ c s) = is_space (code c) && is_blank s

digit : ℕ → String
digit d =
    if eqb d 0
    then "0"
    else if eqb d 1
    then "1"
    else if eqb d 2
    then "2"
    else if eqb d 3
    then "3"
    else if eqb d 4
    then "4"
    else if eqb d 5
    then "5"
    else if eqb d 6
    then "6"
    else if eqb d 7
    then "7"
    else if eqb d 8
    then "8"
    else "9"

decimal_from : ℕ → ℕ → String
unfolding digit
decimal_from zero n = ""
decimal_from (suc fuel) n =
    let more = decimal_from fuel (n / 10) in if ltb n 10 then digit n else more ++ digit (n % 10)

-- Any two amounts of fuel above the number print it alike.
decimal_from_lem : (f g n : ℕ) → n < f → n < g → decimal_from f n ≡ decimal_from g n
unfolding decimal_from
decimal_from_lem zero g n h k = absurd (omega arith)
decimal_from_lem (suc f) zero n h k = absurd (omega arith)
decimal_from_lem (suc f) (suc g) n h k = elim (Bool-cases (ltb n 10)) [
  | inl e ↦ rw e refl
  | inr e ↦
      rw e (
        ap (λ s. s ++ digit (n % 10)) (decimal_from_lem f g (n / 10) (ground arith) (ground arith)))
]

-- `str(n)` of an int that is not negative; n + 1 rounds are enough, since n / 10 < n.
unfoldable pub decimal : ℕ → String
unfolding decimal_from
decimal n = decimal_from (suc n) n

pub size-append : (s t : String) → size (s ++ t) ≡ size s + size t
size-append String.[] t = rw nil-append (omega arith)
size-append (String.◌∷◌ c s) t = rw cons-append (omega (arith, size-append s t))

pub size-prefix_of : (n : ℕ) (s : String) → size (prefix_of n s) ≡ min n (size s)
size-prefix_of zero s = omega arith
size-prefix_of (suc n) String.[] = omega arith
size-prefix_of (suc n) (String.◌∷◌ c s) = omega (arith, size-prefix_of n s)

decimal_test : decimal 1207 ≡ "1207"
unfolding decimal
decimal_test = refl
