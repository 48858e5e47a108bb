-- ===== src/Json.antt =====
-- JSON values as the tools receive them, and `json.dumps(v, sort_keys=True, separators=(",", ":"))`
-- of Python's standard library, which `_finish` hashes. A float stands as the text of its `repr`.
use Prim.Native.Char.{Char, code}
use Prim.Native.String.{compare}
use Prim.Native.Nat.{Ordering}
use murray_context_ledger_mc.Base.{
  ℕ, suc, ◌+◌, ◌-◌, ◌/◌, ◌%◌, String, ◌<>◌, Bool, true, false, ◌&&◌, leb, ltb, eqb, if◌then◌else◌,
  decimal, join, List, [], ◌∷◌, map, ◌≡◌, refl,
}
use murray_context_ledger_mc.Base.Int.{ℤ, pos, negsuc}

mutual
  pub data Json : Type 0 where
    null : Json
    boolean : Bool → Json
    int : ℤ → Json
    float : String → Json
    text : String → Json
    array : Items → Json
    object : Fields → Json

  pub data Items : Type 0 where
    nil : Items
    item : Json → Items → Items

  pub data Fields : Type 0 where
    end : Fields
    field : String → Json → Fields → Fields

hex_digit : ℕ → String
hex_digit d =
    if ltb d 10
    then decimal d
    else if eqb d 10
    then "a"
    else if eqb d 11
    then "b"
    else if eqb d 12
    then "c"
    else if eqb d 13
    then "d"
    else if eqb d 14
    then "e"
    else "f"

-- `\uXXXX` for one UTF-16 unit
unit_escape : ℕ → String
unfolding hex_digit decimal
unit_escape n =
    "\\u"
    <> (hex_digit (n / 4096)
        <> (hex_digit (n / 256 % 16) <> (hex_digit (n / 16 % 16) <> hex_digit (n % 16))))

escape_char : Char → String
unfolding unit_escape
escape_char c =
    let n = code c in
    if eqb n b'"'
    then "\\\""
    else if eqb n 92
    then "\\\\"
    else if eqb n 10
    then "\\n"
    else if eqb n 13
    then "\\r"
    else if eqb n 9
    then "\\t"
    else if eqb n 12
    then "\\f"
    else if eqb n 8
    then "\\b"
    else if leb 32 n && leb n 126
    then String.◌∷◌ c ""
    else if ltb n 65536
    then unit_escape n
    else unit_escape (55296 + (n - 65536) / 1024) <> unit_escape (56320 + (n - 65536) % 1024)

escape : String → String
unfolding escape_char
escape String.[] = ""
escape (String.◌∷◌ c s) = escape_char c <> escape s

dumps_int : ℤ → String
unfolding decimal
dumps_int (pos n) = decimal n
dumps_int (negsuc n) = "-" <> decimal (suc n)

-- The fields sorted by their keys, each value already printed.
place : String → String → List (String × String) → List (String × String)
place k v [] = (k, v) ∷ []
place k v ((j, w) ∷ fs) =
    let later = (j, w) ∷ place k v fs in
    elim (compare k j) [ Ordering.gt ↦ later | _ ↦ (k, v) ∷ (j, w) ∷ fs ]

print_field : String × String → String
print_field (k, v) = "\"" <> (escape k <> ("\":" <> v))

unfoldable mutual
  unfolding dumps_int escape place print_field

  pub dumps : Json → String
  dumps null = "null"
  dumps (boolean true) = "true"
  dumps (boolean false) = "false"
  dumps (int n) = dumps_int n
  dumps (float repr) = repr
  dumps (text s) = "\"" <> (escape s <> "\"")
  dumps (array xs) = "[" <> (join "," (dumps_items xs) <> "]")
  dumps (object fs) = "{" <> (join "," (map print_field (dumps_fields fs)) <> "}")

  dumps_items : Items → List String
  dumps_items nil = []
  dumps_items (item x xs) = dumps x ∷ dumps_items xs

  dumps_fields : Fields → List (String × String)
  dumps_fields end = []
  dumps_fields (field k v fs) = place k (dumps v) (dumps_fields fs)

sorted_keys :
    dumps (
      object
        (field "b" (int (negsuc 0)) (field "a" (array (item null (item (text "x\"é") nil))) end)))
    ≡ "{\"a\":[null,\"x\\\"\\u00e9\"],\"b\":-1}"
unfolding dumps
sorted_keys = refl
