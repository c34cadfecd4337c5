-- ===== src/Vault/Encoding.antt =====
-- Texts in agents/vault/vault.py: trimming and case, and the percent-encoding of RFC 5849.
use Prim.Native.Nat.{ℕ}
use Prim.Native.Char.{Char, code}
use Prim.Native.String
use cavi_erp.Prelude.{
  ◌+◌, ◌-◌, ◌/◌, ◌%◌, ◌≡◌, refl, String, Bool, true, false, ◌&&◌, ◌||◌, List, [], ◌∷◌, ◌<>◌,
  if◌then◌else◌, eqb, leb, ltb,
}

abbrev one : Char → String
one c = String.◌∷◌ c ""

abbrev between : ℕ → ℕ → ℕ → Bool
between lo hi n = leb lo n && leb n hi

-- `str.isspace` of one character.
is_space : ℕ → Bool
is_space n =
    between 9 13 n
    || between 28 32 n
    || eqb n 133
    || eqb n 160
    || eqb n 5760
    || between 8192 8202 n
    || eqb n 8232
    || eqb n 8233
    || eqb n 8239
    || eqb n 8287
    || eqb n 12288

drop_spaces : String → String
unfolding is_space
drop_spaces String.[] = ""
drop_spaces (String.◌∷◌ c s) = elim (is_space (code c)) [
  | true ↦ drop_spaces s
  | false ↦ String.◌∷◌ c s
]

backwards : String → String → String
backwards String.[] acc = acc
backwards (String.◌∷◌ c s) acc = backwards s (String.◌∷◌ c acc)

-- `text.strip()`
unfoldable pub strip : String → String
unfolding drop_spaces backwards
strip s = backwards (drop_spaces (backwards (drop_spaces s) "")) ""

lower_char : Char → String
lower_char c =
    let n = code c in
    if between 65 90 n then one (String.char_at "abcdefghijklmnopqrstuvwxyz" (n - 65)) else one c

-- `text.lower()`, on the letters A to Z.
unfoldable pub lower : String → String
unfolding lower_char
lower String.[] = ""
lower (String.◌∷◌ c s) = lower_char c <> lower s

upper_char : Char → String
upper_char c =
    let n = code c in
    if between 97 122 n then one (String.char_at "ABCDEFGHIJKLMNOPQRSTUVWXYZ" (n - 97)) else one c

-- `text.upper()`, on the letters a to z.
unfoldable pub upper : String → String
unfolding upper_char
upper String.[] = ""
upper (String.◌∷◌ c s) = upper_char c <> upper s

-- The UTF-8 bytes of a character.
utf8 : ℕ → List ℕ
utf8 n =
    if ltb n 128
    then n ∷ []
    else if ltb n 2048
    then (192 + n / 64) ∷ (128 + n % 64) ∷ []
    else if ltb n 65536
    then (224 + n / 4096) ∷ (128 + n / 64 % 64) ∷ (128 + n % 64) ∷ []
    else (240 + n / 262144) ∷ (128 + n / 4096 % 64) ∷ (128 + n / 64 % 64) ∷ (128 + n % 64) ∷ []

hex_pair : ℕ → String
hex_pair n =
    one (String.char_at "0123456789ABCDEF" (n / 16))
    <> one (String.char_at "0123456789ABCDEF" (n % 16))

escaped : List ℕ → String
unfolding hex_pair
escaped [] = ""
escaped (n ∷ bytes) = "%" <> hex_pair n <> escaped bytes

is_unreserved : ℕ → Bool
is_unreserved n =
    between 48 57 n
    || between 65 90 n
    || between 97 122 n
    || eqb n 45
    || eqb n 46
    || eqb n 95
    || eqb n 126

percent_char : Char → String
unfolding is_unreserved utf8 escaped
percent_char c = if is_unreserved (code c) then one c else escaped (utf8 (code c))

-- `_percent`: `quote(str(value), safe="-._~")`
unfoldable pub percent : String → String
unfolding percent_char
percent String.[] = ""
percent (String.◌∷◌ c s) = percent_char c <> percent s

trims_and_lowers : lower (strip " NetSuite\n") ≡ "netsuite"
unfolding strip lower
trims_and_lowers = refl

percent_encodes : percent "a b/é~" ≡ "a%20b%2F%C3%A9~"
unfolding percent
percent_encodes = refl
