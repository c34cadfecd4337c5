-- ===== src/Prelude/Text.antt =====
-- Texts: the tests and laws of the native strings that the program's text handling rests on.
use Prim.Native.String
use Prim.Native.String.{String}
use mathlib.Core.Bool.{Bool, true, false}
pub use text.Mathlib.Text.{starts_with}
pub use text.Mathlib.TextEquality.{eq_iff}

-- Concatenation of texts, `a + b` or the parts of an f-string.
infixl 65 ◌<>◌
abbrev pub ◌<>◌ : String → String → String
a <> b = String.◌++◌ a b

-- `if text:`, which holds of every text but the empty one.
abbrev pub nonempty : String → Bool
nonempty String.[] = false
nonempty (String.◌∷◌ c s) = true
