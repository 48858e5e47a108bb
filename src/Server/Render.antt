-- ===== src/Server/Render.antt =====
-- The texts that the tools build from facts: budget, lines, links and search patterns.
pub mod Pattern
use Prim.Native.Char.{code}
use murray_context_ledger_mc.Base.{
  ℕ, ◌+◌, ◌-◌, ◌*◌, ◌/◌, ◌%◌, ◌^◌, String, ◌<>◌, ltb, eqb, if◌then◌else◌, size, prefix_of, decimal,
  ◌≡◌, refl,
}
use murray_context_ledger_mc.Schemas.{type_name, Float, scale}
use murray_context_ledger_mc.Store.{FactRow}
use murray_context_ledger_mc.Server.Env.{Env}

-- `math.ceil(len(text) / 4)`, exact for every text that fits in memory.
unfoldable pub estimate_tokens : String → ℕ
estimate_tokens text = (size text + 3) / 4

-- The nearest number of hundredths, ties to the even one, as `.2f` rounds the exact value.
unfoldable pub round_hundredths : Float → ℕ
unfolding scale
round_hundredths x =
    let q = x * 100 / scale in
    let r = x * 100 % scale * 2 in
    if ltb r scale then q else if ltb scale r then q + 1 else q + q % 2

two_digits : ℕ → String
unfolding decimal
two_digits n = if ltb n 10 then "0" <> decimal n else decimal n

unfoldable pub fixed_2 : Float → String
unfolding round_hundredths two_digits decimal
fixed_2 x = let h = round_hundredths x in decimal (h / 100) <> ("." <> two_digits (h % 100))

abbrev pub ellipsis : String
ellipsis = "…"

-- `content[: max_chars - 1] + "…"` where the content is longer than that; `max_chars` is not 0.
unfoldable pub shorten : ℕ → String → String
shorten max_chars content =
    if ltb max_chars (size content) then prefix_of (max_chars - 1) content <> ellipsis else content

-- `_fact_line`, with its default of 300.
unfoldable pub fact_line : ℕ → FactRow → String
unfolding shorten fixed_2 type_name
fact_line max_chars fact =
    "["
    <> (type_name fact.type
        <> (", " <> (fixed_2 fact.confidence <> ("] " <> shorten max_chars fact.content))))

abbrev pub max_line : ℕ
max_line = 300

module _ (E : Env) where
  -- `_fact_url`
  unfoldable pub fact_url : String → String
  fact_url fact_id =
      let url = E.settings.resource_server_url in
      E.scheme url <> ("://" <> (E.netloc url <> ("/facts/" <> fact_id)))

-- `s.replace(old, new)` where `old` is one character.
unfoldable pub replace : ℕ → String → String → String
replace old new String.[] = ""
replace old new (String.◌∷◌ c s) =
    let rest = replace old new s in if eqb (code c) old then new <> rest else String.◌∷◌ c rest

-- The pattern of the `ilike` fallback.
unfoldable pub like_pattern : String → String
unfolding replace
like_pattern query =
    "%" <> (replace b'_' "\\_" (replace b'%' "\\%" (replace 92 "\\\\" query)) <> "%")

fixed_2_test : fixed_2 (2 ^ 1073 + 2 ^ 1071 + 2 ^ 1069) ≡ "0.66"
unfolding fixed_2
fixed_2_test = refl

tie_to_even : fixed_2 (2 ^ 1071) ≡ "0.12"
unfolding fixed_2
tie_to_even = refl

like_pattern_test : like_pattern "50%_a\\b" ≡ "%50\\%\\_a\\\\b%"
unfolding like_pattern
like_pattern_test = refl
