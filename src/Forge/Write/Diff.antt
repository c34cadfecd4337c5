-- ===== src/Forge/Write/Diff.antt =====
-- `render_diff` of agents/forge/write.py, and what the preview shows.
use Prim.Native.Char.{code}
use text.Mathlib.TextLemmas.{append_cancel_left, cons-append}
use cavi_erp.Prelude.{
  String, ◌≡◌, ◌↔◌, refl, ap, sym, ◌∙◌, true, Option, none, some, List, [], ◌∷◌, ◌++◌, ◌<>◌,
  if◌then◌else◌, arith, All, All-append, string_eq, Option-cases, Bool-cases, Bool, false, ◌||◌,
  eqb, inl, inr,
}
use cavi_erp.Dict.{get}
use cavi_erp.Json.{Object, Value, same}
use cavi_erp.Json.Dumps.{dumps, sort_keys, join}
use cavi_erp.Json.Sorted.{All-sort_keys}
use cavi_erp.Forge.Write.{WriteOperation, erp_address}

abbrev pub no_dry_run_preview : String
no_dry_run_preview = "(dry-run unavailable: no ERP reader configured)"

-- The lines of one payload field.
field_lines : Object → String → Value → List String
field_lines current key new = elim (get key current) [
  | none ↦ ("+ " <> key <> ": " <> dumps new) ∷ []
  | some old ↦
      if same old new
      then []
      else ("- " <> key <> ": " <> dumps old) ∷ ("+ " <> key <> ": " <> dumps new) ∷ []
]

pub diff_lines : Object → Object → List String
diff_lines current [] = []
diff_lines current ((key, new) ∷ fields) = field_lines current key new ++ diff_lines current fields

abbrev pub or_empty : Option Object → Object
or_empty none = []
or_empty (some d) = d

abbrev pub existing : Option Object → String
existing none = "no existing record"
existing (some _) = "updates existing record"

abbrev pub no_changes : String
no_changes = "(no field changes — ERP record already matches the payload)"

abbrev or_no_changes : List String → List String
or_no_changes [] = no_changes ∷ []
or_no_changes (line ∷ lines) = line ∷ lines

abbrev pub header : Option Object → WriteOperation → String
header before op =
    op.erp_platform
    <> " "
    <> op.target_module
    <> " eid "
    <> erp_address op
    <> " — "
    <> op.operation
    <> " ("
    <> existing before
    <> ")"

unfoldable pub render_diff : Option Object → WriteOperation → String
unfolding diff_lines field_lines
render_diff before op =
    join "\n"
      (header before op ∷ or_no_changes (diff_lines (or_empty before) (sort_keys op.payload)))

-- The ERP record holds this field with an equal value.
abbrev pub Holds : Object → String × Value → Type 0
Holds current (key, new) = (old : Value) × (get key current ≡ some old) × (same old new ≡ true)

-- Every field of the payload stands in the ERP record with an equal value.
abbrev pub Matches : Object → Object → Type 0
Matches current fields = All (Holds current) fields

field_lines-nil :
    (current : Object) (key : String) (new : Value)
    → (field_lines current key new ≡ []) ↔ Holds current (key, new)
unfolding field_lines
field_lines-nil current key new = (shown, hidden)
  where
    shown : field_lines current key new ≡ [] → Holds current (key, new)
    shown = elim (Option-cases (get key current)) [
      | inl absent ↦ (λ h. cc (rw (absent, field_lines) at h))
      | inr (old, present) ↦ (λ h. (old, present, ground (arith, present)))
    ]

    hidden : Holds current (key, new) → field_lines current key new ≡ []
    hidden (old, present, equal) = rw (present, field_lines) (rw equal refl)

append-eq-nil : (xs ys : List String) → (xs ++ ys ≡ []) ↔ ((xs ≡ []) × (ys ≡ []))
append-eq-nil [] ys = ground arith
append-eq-nil (x ∷ xs) ys = ground arith

diff_lines-nil :
    (current fields : Object) → (diff_lines current fields ≡ []) ↔ Matches current fields
unfolding diff_lines
diff_lines-nil current [] = (λ _. tt, λ _. refl)
diff_lines-nil current ((key, new) ∷ fields) =
    let head = field_lines-nil current key new in
    let rest = diff_lines-nil current fields in
    let both = append-eq-nil (field_lines current key new) (diff_lines current fields) in
    (
      λ h. let (none_here, none_later) = both.0 h in (head.0 none_here, rest.0 none_later),
      λ (holds, matches). both.1 (head.1 holds, rest.1 matches),
    )

-- A line of change begins with a plus or a minus.
is_marked : String → Bool
is_marked String.[] = false
is_marked (String.◌∷◌ c s) = eqb (code c) 43 || eqb (code c) 45

is_marked-append : (s t : String) → is_marked s ≡ true → is_marked (s <> t) ≡ true
unfolding is_marked
is_marked-append String.[] t h = cc
is_marked-append (String.◌∷◌ c s) t h = ap is_marked (cons-append c s t) ∙ h

is_marked-join :
    (line : String) (lines : List String)
    → is_marked line ≡ true
    → is_marked (join "\n" (line ∷ lines)) ≡ true
unfolding join
is_marked-join line [] h = h
is_marked-join line (next ∷ lines) h =
    is_marked-append (line <> "\n") (join "\n" (next ∷ lines)) (is_marked-append line "\n" h)

abbrev AllMarked : List String → Type 0
AllMarked lines = All (λ line. is_marked line ≡ true) lines

is_marked-line :
    (sign key sep text : String)
    → is_marked sign ≡ true
    → is_marked (sign <> key <> sep <> text) ≡ true
is_marked-line sign key sep text h =
    is_marked-append (sign <> key <> sep) text
      (is_marked-append (sign <> key) sep (is_marked-append sign key h))

field_lines-AllMarked :
    (current : Object) (key : String) (new : Value) → AllMarked (field_lines current key new)
unfolding field_lines is_marked
field_lines-AllMarked current key new = elim (Option-cases (get key current)) [
  | inl absent ↦ rw (absent, field_lines) (is_marked-line "+ " key ": " (dumps new) refl, tt)
  | inr (old, present) ↦ elim (Bool-cases (same old new)) [
    | inl equal ↦ rw (present, field_lines) (rw equal tt)
    | inr other ↦
        rw (present, field_lines)
          (rw other (
            is_marked-line "- " key ": " (dumps old) refl,
            (is_marked-line "+ " key ": " (dumps new) refl, tt),
          ))
  ]
]

diff_lines-AllMarked : (current fields : Object) → AllMarked (diff_lines current fields)
unfolding diff_lines
diff_lines-AllMarked current [] = tt
diff_lines-AllMarked current ((key, new) ∷ fields) =
    All-append (λ line. is_marked line ≡ true) (field_lines current key new)
      (diff_lines current fields) (field_lines-AllMarked current key new)
      (diff_lines-AllMarked current fields)

-- The preview below its header, for these lines of change.
abbrev shown : List String → String → String
shown lines title = join "\n" (title ∷ or_no_changes lines)

shown-no_changes :
    (lines : List String) (title : String)
    → AllMarked lines
    → shown lines title ≡ title <> "\n" <> no_changes
    → lines ≡ []
unfolding is_marked join
shown-no_changes [] title marked h = refl
shown-no_changes (line ∷ lines) title (marked, _) h =
    let body : join "\n" (line ∷ lines) ≡ no_changes = append_cancel_left (title <> "\n") _ _ h in
    let yes : is_marked no_changes ≡ true =
      sym (ap is_marked body) ∙ is_marked-join line lines marked in
    cc (yes)

-- The preview says, under the header that names the record, that there are no field changes exactly
-- when the record that the ERP holds already has every field of the payload with an equal value; a
-- record that does not exist has none.
pub render_diff-no_changes :
    (before : Option Object) (op : WriteOperation)
    → (render_diff before op ≡ header before op <> "\n" <> no_changes)
      ↔ Matches (or_empty before) op.payload
unfolding render_diff join
render_diff-no_changes before op =
    let fields = sort_keys op.payload in
    let (none_matches, matches_none) = diff_lines-nil (or_empty before) fields in
    let (of_sorted, to_sorted) = All-sort_keys (Holds (or_empty before)) op.payload in
    let marked = diff_lines-AllMarked (or_empty before) fields in
    (
      λ h. of_sorted (
          none_matches
            (shown-no_changes (diff_lines (or_empty before) fields) (header before op) marked h)),
      λ h. rw (matches_none (to_sorted h)) refl,
    )
