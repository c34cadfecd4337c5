-- ===== src/Json/Dumps.antt =====
-- `json.dumps(value, sort_keys=True, separators=(",", ":"))`, the canonical text of a value.
use Prim.Native.Nat.{ℕ, Ordering, ◌-◌, ◌+◌, ◌/◌, ◌%◌}
use Prim.Native.Char.{Char, code}
use Prim.Native.String
use cavi_erp.Prelude.{
  ◌≡◌, refl, String, Bool, true, false, ◌&&◌, List, [], ◌∷◌, if◌then◌else◌, ltb, leb, eqb, ◌<>◌,
}
use cavi_erp.Prelude.Int.{negsuc, show_ℤ}
use cavi_erp.Json.{Value, null, bool, int, str, arr, obj, Items, nil, cons, Fields, end, field}

hex_digit : ℕ → String
hex_digit n =
    if eqb n 0
    then "0"
    else if eqb n 1
    then "1"
    else if eqb n 2
    then "2"
    else if eqb n 3
    then "3"
    else if eqb n 4
    then "4"
    else if eqb n 5
    then "5"
    else if eqb n 6
    then "6"
    else if eqb n 7
    then "7"
    else if eqb n 8
    then "8"
    else if eqb n 9
    then "9"
    else if eqb n 10
    then "a"
    else if eqb n 11
    then "b"
    else if eqb n 12
    then "c"
    else if eqb n 13
    then "d"
    else if eqb n 14
    then "e"
    else "f"

unicode_escape : ℕ → String
unfolding hex_digit
unicode_escape n =
    "\\u"
    <> hex_digit (n / 4096 % 16)
    <> hex_digit (n / 256 % 16)
    <> hex_digit (n / 16 % 16)
    <> hex_digit (n % 16)

-- One character of a text, escaped to ASCII as `json.dumps` does: what lies above 0xffff is a
-- surrogate pair.
escape_char : Char → String
unfolding unicode_escape
escape_char c =
    let n = code c in
    if eqb n 34
    then "\\\""
    else if eqb n 92
    then "\\\\"
    else if eqb n 10
    then "\\n"
    else if eqb n 13
    then "\\r"
    else if eqb n 9
    then "\\t"
    else if eqb n 8
    then "\\b"
    else if eqb n 12
    then "\\f"
    else if leb 32 n && leb n 126
    then String.◌∷◌ c ""
    else if ltb n 65536
    then unicode_escape n
    else unicode_escape (55296 + (n - 65536) / 1024) <> unicode_escape (56320 + (n - 65536) % 1024)

escape : String → String
unfolding escape_char
escape String.[] = ""
escape (String.◌∷◌ c s) = escape_char c <> escape s

unfoldable pub quote : String → String
unfolding escape
quote s = "\"" <> escape s <> "\""

abbrev pub text_le : String → String → Bool
text_le s t = elim (String.compare s t) [ Ordering.gt ↦ false | _ ↦ true ]

module _ {ℓ} {A : Type ℓ} where
  unfoldable pub insert_sorted : String → A → List (String × A) → List (String × A)
  insert_sorted k a [] = (k, a) ∷ []
  insert_sorted k a ((j, b) ∷ l) =
      let rest = insert_sorted k a l in if text_le k j then (k, a) ∷ (j, b) ∷ l else (j, b) ∷ rest

  -- `sorted(d.items())` of a dictionary, whose keys are distinct.
  unfoldable pub sort_keys : List (String × A) → List (String × A)
  unfolding insert_sorted
  sort_keys [] = []
  sort_keys ((k, a) ∷ l) = insert_sorted k a (sort_keys l)

unfoldable pub join : String → List String → String
join sep [] = ""
join sep (s ∷ []) = s
join sep (s ∷ t ∷ l) = s <> sep <> join sep (t ∷ l)

members : List (String × String) → List String
unfolding quote
members [] = []
members ((k, v) ∷ l) = (quote k <> ":" <> v) ∷ members l

unfoldable mutual
  unfolding quote members join sort_keys show_ℤ

  pub dumps : Value → String
  dumps null = "null"
  dumps (bool true) = "true"
  dumps (bool false) = "false"
  dumps (int n) = show_ℤ n
  dumps (str s) = quote s
  dumps (arr xs) = "[" <> join "," (dumps_items xs) <> "]"
  dumps (obj fs) = "{" <> join "," (members (sort_keys (dumps_fields fs))) <> "}"

  pub dumps_items : Items → List String
  dumps_items nil = []
  dumps_items (cons x xs) = dumps x ∷ dumps_items xs

  pub dumps_fields : Fields → List (String × String)
  dumps_fields end = []
  dumps_fields (field k v fs) = (k, dumps v) ∷ dumps_fields fs

dumps_sorts :
    dumps
      (obj (field "b" (arr (cons (int (negsuc 4)) (cons null nil))) (field "a" (str "x\"é") end)))
    ≡ "{\"a\":\"x\\\"\\u00e9\",\"b\":[-5,null]}"
unfolding dumps
dumps_sorts = refl
