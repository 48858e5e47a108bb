-- ===== src/Scripts/LedgerAdmin/Words.antt =====
-- The `--scopes` option: a list of scopes, written with commas, is read back.
use Prim.Native.Char.{code}
use text.Mathlib.TextLemmas.{nil-append, cons-append}
use murray_context_ledger_mc.Base.{
  ◌≡◌, refl, ap, ◌∙◌, String, ◌<>◌, ◌==◌, Bool, true, false, not, ◌&&◌, eqb, and_left, and_right,
  some, List, [], ◌∷◌, map, keep, All, join, join_tail, arith,
}
use murray_context_ledger_mc.Scripts.LedgerAdmin.{split_commas, extend, strip, scopes}

abbrev pub no_comma : String → Bool
no_comma String.[] = true
no_comma (String.◌∷◌ c s) = not (eqb (code c) b',') && no_comma s

-- A scope as an operator writes it: no comma in it, no space around it, and not empty.
pub record IsWord (w : String) : Type 0 where
  pub no_comma_in : no_comma w ≡ true
  pub stripped : strip w ≡ w
  pub not_empty : (w == "") ≡ false

split_word :
    (w rest : String) (ws : List String)
    → no_comma w ≡ true
    → split_commas rest ≡ "" ∷ ws
    → split_commas (w <> rest) ≡ w ∷ ws
unfolding split_commas extend
split_word String.[] rest ws h e = rw nil-append e
split_word (String.◌∷◌ c w) rest ws h e =
    let ih = split_word w rest ws (and_right _ _ h) e in
    let other : eqb (code c) b',' ≡ false = not-true _ (and_left _ _ h) in
    rw (cons-append, other, ih) refl
  where
    not-true : (b : Bool) → not b ≡ true → b ≡ false
    not-true b k = ground arith

split_tail : (ws : List String) → All IsWord ws → split_commas (join_tail "," ws) ≡ "" ∷ ws
unfolding split_commas
split_tail [] h = refl
split_tail (w ∷ ws) h =
    let rest = split_word w (join_tail "," ws) ws h.0.no_comma_in (split_tail ws h.1) in
    rw (cons-append, nil-append) (rw rest refl)

map-strip : (ws : List String) → All IsWord ws → map strip ws ≡ ws
map-strip [] h = refl
map-strip (w ∷ ws) h = rw (h.0.stripped, map-strip ws h.1) refl

keep_words : (ws : List String) → All IsWord ws → keep (λ s. not (s == "")) ws ≡ ws
keep_words [] h = refl
keep_words (w ∷ ws) h = rw (h.0.not_empty, keep_words ws h.1) refl

-- Scopes without commas, spaces around them or empty ones among them, written one after the other
-- with commas between, are read back by `_scopes` as they are and in their order.
pub scopes-join : (ws : List String) → All IsWord ws → scopes (some (join "," ws)) ≡ some ws
unfolding scopes split_commas strip
scopes-join [] h = refl
scopes-join (w ∷ ws) h =
    let split = split_word w (join_tail "," ws) ws h.0.no_comma_in (split_tail ws h.1) in
    ap (λ parts. some (keep (λ s. not (s == "")) (map strip parts))) split
    ∙ ap (λ parts. some (keep (λ s. not (s == "")) parts)) (map-strip (w ∷ ws) h)
    ∙ ap some (keep_words (w ∷ ws) h)
