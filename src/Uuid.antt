-- ===== src/Uuid.antt =====
-- `uuid.UUID(text)` of Python's standard library, as far as it accepts a text or raises
-- `ValueError`. Decimal digits beyond ASCII, which `int` takes too, are left out.
use Prim.Native.Char.{code}
use mathlib.Core.List.{reverse}
use murray_context_ledger_mc.Base.{
  ℕ, zero, suc, ◌-◌, ◌≡◌, refl, String, Bool, true, false, ◌&&◌, ◌||◌, List, [], ◌∷◌, length, leb,
  eqb, if◌then◌else◌, is_space,
}

abbrev pub codes : String → List ℕ
codes String.[] = []
codes (String.◌∷◌ c s) = code c ∷ codes s

begins : List ℕ → List ℕ → Bool
begins [] s = true
begins (p ∷ ps) [] = false
begins (p ∷ ps) (c ∷ s) = eqb p c && begins ps s

-- `s.replace(pattern, "")`; the number counts the code points of a match that are still to drop.
remove : List ℕ → ℕ → List ℕ → List ℕ
remove pattern k [] = []
remove pattern (suc k) (c ∷ s) = remove pattern k s
remove pattern zero (c ∷ s) =
    let dropped = remove pattern (length pattern - 1) s in
    let kept = c ∷ remove pattern zero s in if begins pattern (c ∷ s) then dropped else kept

strip_left : (ℕ → Bool) → List ℕ → List ℕ
strip_left p [] = []
strip_left p (c ∷ s) = let rest = strip_left p s in if p c then rest else c ∷ s

strip : (ℕ → Bool) → List ℕ → List ℕ
unfolding strip_left
strip p s = reverse (strip_left p (reverse (strip_left p s)))

is_brace : ℕ → Bool
is_brace c = eqb c b'{' || eqb c b'}'

is_hex : ℕ → Bool
is_hex c = (leb b'0' c && leb c b'9') || (leb b'a' c && leb c b'f') || (leb b'A' c && leb c b'F')

-- Digits with single underscores between them; the flag says that a digit stands in front.
are_digits : Bool → List ℕ → Bool
are_digits after [] = after
are_digits after (c ∷ s) =
    let next = are_digits true s in
    let joined = are_digits false s in if is_hex c then next else (eqb c b'_' && after) && joined

skip_underscore : List ℕ → List ℕ
skip_underscore [] = []
skip_underscore (c ∷ s) = if eqb c b'_' then s else c ∷ s

skip_sign : List ℕ → List ℕ
skip_sign [] = []
skip_sign (c ∷ s) = if eqb c b'+' || eqb c b'-' then s else c ∷ s

skip_prefix : List ℕ → List ℕ
unfolding skip_underscore
skip_prefix [] = []
skip_prefix (c ∷ []) = c ∷ []
skip_prefix (c ∷ d ∷ s) =
    if eqb c b'0' && (eqb d b'x' || eqb d b'X') then skip_underscore s else c ∷ d ∷ s

-- `int(s, 16)` raises nothing.
is_int16 : List ℕ → Bool
unfolding are_digits skip_prefix skip_sign strip is_space is_hex
is_int16 s = are_digits false (skip_prefix (skip_sign (strip is_space s)))

-- The digits that `UUID` looks at.
uuid_digits : String → List ℕ
unfolding remove begins strip is_brace
uuid_digits s =
    let bare = remove (codes "uuid:") 0 (remove (codes "urn:") 0 (codes s)) in
    remove (codes "-") 0 (strip is_brace bare)

unfoldable pub is_uuid : String → Bool
unfolding uuid_digits is_int16
is_uuid s = let hex = uuid_digits s in eqb (length hex) 32 && is_int16 hex

plain : is_uuid "123e4567-e89b-12d3-a456-426614174000" ≡ true
unfolding is_uuid
plain = refl

wrapped : is_uuid "{urn:uuid:123e4567e89b12d3a456426614174000}" ≡ true
unfolding is_uuid
wrapped = refl

with_prefix : is_uuid "0x12_e4567e89b12d3a4564266141740" ≡ true
unfolding is_uuid
with_prefix = refl

garbage : is_uuid "not-a-uuid" ≡ false
unfolding is_uuid
garbage = refl
