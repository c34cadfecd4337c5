-- ===== src/Mapper/Records.antt =====
-- agents/mapper/netsuite_records.py: the declarative mappings of Cavi's records onto NetSuite's. The
-- `repr` of a value is a parameter.
pub mod Tables
pub mod Complete
pub mod Targets
pub mod Lines
pub mod Carried
use Prim.Native.Nat.{ℕ}
use cavi_erp.Prelude.{
  zero, suc, ◌/◌, ◌%◌, String, Bool, true, false, not, ◌||◌, Option, none, some, List, [], ◌∷◌,
  ◌++◌, ◌<>◌, ◌==◌, string_eq, eqb, ltb, if◌then◌else◌, contains,
}
use cavi_erp.Prelude.Int.{ℤ, pos, negsuc, show_ℕ}
use cavi_erp.Dict.{Dict, get, put, keys}
use cavi_erp.Json.{
  Value, Object, Items, null, bool, int, str, arr, obj, nil, cons, to_dict, of_dict, of_list,
  to_list,
}
use cavi_erp.Json.Dumps.{sort_keys}
use cavi_erp.Error.{Error, Result, ok, err, ◌>>=◌}

abbrev pub Converter : Type 0
Converter = Value → Result Value

-- The text of `Decimal(n) / 100`, for up to 28 digits.
unfoldable pub hundredths : ℕ → String
hundredths n =
    let units = show_ℕ (n / 100) in
    let r = n % 100 in
    if eqb r 0
    then units
    else if eqb (r % 10) 0
    then units <> "." <> show_ℕ (r / 10)
    else if ltb r 10
    then units <> ".0" <> show_ℕ r
    else units <> "." <> show_ℕ r

unfoldable pub major_text : ℤ → String
unfolding hundredths
major_text (pos n) = hundredths n
major_text (negsuc n) = "-" <> hundredths (suc n)

module _ (repr : Value → String) where
  abbrev no_minor_units : Value → Error
  no_minor_units v =
      Error.transform_error ("unit_price_minor must be integer minor units, got " <> repr v)

  -- `_minor_to_major`
  unfoldable pub minor_to_major : Converter
  unfolding major_text
  minor_to_major (int n) = ok (str (major_text n))
  minor_to_major v = err (no_minor_units v)

pub record LineMapping : Type 0 where
  pub target : String
  pub fields : Dict String String
  pub required : List String
  pub converters : Dict String Converter

pub record RecordMapping : Type 0 where
  pub source_schema : String
  pub target_schema : String
  pub target_module : String
  pub fields : Dict String String
  pub required : List String
  pub unmapped : List String
  pub converters : Dict String Converter
  pub lines : Dict String LineMapping

-- `self.converters.get(src, lambda v: v)`, applied.
abbrev pub converted : Option Converter → Value → Result Value
converted none v = ok v
converted (some convert) v = convert v

-- `src in record and record[src] is not None`
abbrev pub carried : Option Value → Option Value
carried none = none
carried (some null) = none
carried (some v) = some v

-- The loop over `fields`, which sets the targets in `out`.
unfoldable pub carry : Dict String Converter → Dict String String → Object → Object → Result Object
carry converters [] source out = ok out
carry converters ((src, target) ∷ fields) source out = elim (carried (get src source)) [
  | none ↦ carry converters fields source out
  | some v ↦
      converted (get src converters) v >>= λ w. carry converters fields source (put target w out)
]

-- `value in (None, "")`
abbrev pub is_blank : Option Value → Bool
is_blank none = true
is_blank (some null) = true
is_blank (some (str s)) = s == ""
is_blank (some v) = false

-- `value in (None, "", [])`
abbrev pub is_blank_or_empty : Option Value → Bool
is_blank_or_empty (some (arr nil)) = true
is_blank_or_empty v = is_blank v

-- A gap for each required name whose value the test finds blank.
unfoldable pub required_gaps : (Option Value → Bool) → String → Object → List String → List String
required_gaps blank place source [] = []
required_gaps blank place source (name ∷ names) =
    let rest = required_gaps blank place source names in
    if blank (get name source) then (place <> name <> " is required") ∷ rest else rest

-- The entries under names that are not declared.
abbrev pub undeclared : List String → Object → Object
undeclared declared [] = []
undeclared declared ((name, v) ∷ source) =
    let rest = undeclared declared source in
    if contains name declared then rest else (name, v) ∷ rest

abbrev pub undeclared_texts : String → List String → List String
undeclared_texts place [] = []
undeclared_texts place (name ∷ names) =
    (place <> name <> " has no NetSuite target (undeclared)") ∷ undeclared_texts place names

unfoldable pub undeclared_gaps : String → List String → Object → List String
undeclared_gaps place declared source =
    undeclared_texts place (keys (sort_keys (undeclared declared source)))

abbrev pub place_of : String → ℕ → String
place_of field_name i = field_name <> "[" <> show_ℕ i <> "]"

-- What a mapping makes of its input, with the gaps that it finds.
abbrev pub Mapped : Type 0 → Type 0
Mapped A = Result (A × List String)

-- The body of the loop over the lines.
unfoldable pub map_line : LineMapping → String → Value → Mapped Items
map_line m place (obj fs) = do
  mapped ← carry m.converters m.fields (to_dict fs) []
  ok (
    cons (obj (of_dict mapped)) nil,
    required_gaps is_blank (place <> ".") (to_dict fs) m.required
        ++ undeclared_gaps (place <> ".") (keys m.fields) (to_dict fs),
  )
map_line m place other = ok (nil, (place <> " must be an object") ∷ [])

abbrev pub append_items : Items → Items → Items
append_items nil ys = ys
append_items (cons x xs) ys = cons x (append_items xs ys)

unfoldable pub map_lines : LineMapping → String → ℕ → Items → Mapped Items
map_lines m field_name i nil = ok (nil, [])
map_lines m field_name i (cons line lines) =
    map_line m (place_of field_name i) line >>= λ (mapped, gaps).
    map_lines m field_name (suc i) lines >>= λ (later, more).
    ok (append_items mapped later, gaps ++ more)

-- `LineMapping.apply`
unfoldable pub apply_lines : LineMapping → String → Value → Mapped Items
unfolding map_lines map_line
apply_lines m field_name (arr (cons line lines)) = map_lines m field_name 0 (cons line lines)
apply_lines m field_name other = ok (nil, (field_name <> " must be a non-empty list") ∷ [])

-- The loop over `self.lines`; an absent field is left to `required`.
unfoldable pub map_tables : Dict String LineMapping → Object → Object → Mapped Object
map_tables [] source out = ok (out, [])
map_tables ((src, m) ∷ tables) source out = elim (get src source) [
  | none ↦ map_tables tables source out
  | some v ↦ apply_lines m src v >>= λ (mapped, gaps).
      map_tables tables source (put m.target (arr mapped) out) >>= λ (left, more).
      ok (left, gaps ++ more)
]

abbrev pub declared_names : RecordMapping → List String
declared_names m = keys m.fields ++ (m.unmapped ++ keys m.lines)

unfoldable pub record_gaps : RecordMapping → Object → List String
record_gaps m source =
    required_gaps is_blank_or_empty "" source m.required
    ++ undeclared_gaps "" (declared_names m) source

abbrev pub semicolons : List String → String
semicolons [] = ""
semicolons (gap ∷ []) = gap
semicolons (gap ∷ gaps) = gap <> "; " <> semicolons gaps

-- `raise MappingBlocked` if there is a gap.
abbrev pub blocked_by : String → Object → List String → Result Object
blocked_by source_schema out [] = ok out
blocked_by source_schema out (gap ∷ gaps) = err (
    Error.transform_error
      ("mapping blocked for " <> source_schema <> ": " <> semicolons (gap ∷ gaps)))

-- All that `apply` computes before it decides whether to raise.
unfoldable pub scan : RecordMapping → Object → Mapped Object
unfolding record_gaps
scan m source = carry m.converters m.fields source [] >>= λ out.
    map_tables m.lines source out >>= λ (left, more). ok (left, record_gaps m source ++ more)

-- `RecordMapping.apply`
unfoldable pub apply : RecordMapping → Object → Result Object
unfolding scan
apply m source = scan m source >>= λ (out, gaps). blocked_by m.source_schema out gaps
