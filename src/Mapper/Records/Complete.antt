-- ===== src/Mapper/Records/Complete.antt =====
-- When a record is mapped: every gap blocks it, and nothing else does but a conversion that fails.
use mathlib.Core.Path.{subst}
use cavi_erp.Prelude.{
  ◌≡◌, ◌↔◌, refl, sym, ap, ◌∙◌, inl, inr, ℕ, suc, String, Bool, true, false, Bool-cases,
  Option-cases, Option, some, List, [], ◌∷◌, ◌++◌, ◌<>◌, string_eq, contains, All,
}
use cavi_erp.Dict.{Dict, get, put, keys}
use cavi_erp.Json.{Value, Object, Items, Fields, null, bool, int, str, arr, obj, nil, cons, to_dict}
use cavi_erp.Json.Dumps.{sort_keys}
use cavi_erp.Json.Sorted.{All-sort_keys}
use cavi_erp.Error.{ok, >>=-eq-ok}
use cavi_erp.Mapper.Records.{
  LineMapping, RecordMapping, carry, is_blank, is_blank_or_empty, required_gaps, undeclared,
  undeclared_texts, undeclared_gaps, place_of, map_line, map_lines, apply_lines, map_tables,
  declared_names, record_gaps, blocked_by, scan, apply,
}

-- Lists without elements.
abbrev NoElement {ℓ} : {A : Type ℓ} → List A → Type ℓ
NoElement xs = xs ≡ []

append-nil_iff {ℓ} :
    {A : Type ℓ} (xs ys : List A) → NoElement (xs ++ ys) ↔ (NoElement xs × NoElement ys)
append-nil_iff [] ys = (λ e. (refl, e), λ e. e.1)
append-nil_iff (x ∷ xs) ys = (λ e. cc, λ e. cc (e.0))

-- The names whose value passes no test for blankness.
abbrev pub HasRequired : (Option Value → Bool) → Object → List String → Type 0
HasRequired blank source names = All (λ name. blank (get name source) ≡ false) names

abbrev pub HasDeclared : List String → Object → Type 0
HasDeclared declared source = All (λ entry. contains entry.0 declared ≡ true) source

required_gaps-nil :
    (blank : Option Value → Bool) (place : String) (source : Object) (names : List String)
    → NoElement (required_gaps blank place source names) ↔ HasRequired blank source names
unfolding required_gaps
required_gaps-nil blank place source [] = (λ e. tt, λ h. refl)
required_gaps-nil blank place source (name ∷ names) =
    let (to, from) = required_gaps-nil blank place source names in
    elim (Bool-cases (blank (get name source))) [
      | inl gap ↦ rw gap (λ e. cc, λ h. cc (h.0))
      | inr there ↦ rw there (λ e. (refl, to e), λ h. from h.1)
    ]

nil-All {ℓ} : {A : Type ℓ} (xs : List A) → NoElement xs ↔ All (λ (x : A). ⊥) xs
nil-All [] = (λ e. tt, λ h. refl)
nil-All (x ∷ xs) = (λ e. cc, λ h. absurd h.0)

undeclared-nil :
    (declared : List String) (source : Object)
    → NoElement (undeclared declared source) ↔ HasDeclared declared source
undeclared-nil declared [] = (λ e. tt, λ h. refl)
undeclared-nil declared ((name, v) ∷ source) =
    let (to, from) = undeclared-nil declared source in
    elim (Bool-cases (contains name declared)) [
      | inl known ↦ rw known (λ e. (refl, to e), λ h. from h.1)
      | inr unknown ↦ rw unknown (λ e. cc, λ h. cc (h.0))
    ]

texts-nil :
    (place : String) (entries : Object)
    → NoElement (undeclared_texts place (keys entries)) ↔ NoElement entries
texts-nil place [] = (λ e. refl, λ e. refl)
texts-nil place ((name, v) ∷ entries) = (λ e. cc, λ e. cc)

undeclared_gaps-nil :
    (place : String) (declared : List String) (source : Object)
    → NoElement (undeclared_gaps place declared source) ↔ HasDeclared declared source
unfolding undeclared_gaps
undeclared_gaps-nil place declared source =
    let left = undeclared declared source in
    let texts = texts-nil place (sort_keys left) in
    let sorted = All-sort_keys (λ (x : String × Value). ⊥) left in
    let found = undeclared-nil declared source in
    (
      λ e. found.0 ((nil-All left).1 (sorted.0 ((nil-All (sort_keys left)).0 (texts.0 e)))),
      λ h. texts.1 ((nil-All (sort_keys left)).1 (sorted.1 ((nil-All left).0 (found.1 h)))),
    )

abbrev pub IsCompleteLine : LineMapping → Value → Type 0
IsCompleteLine m line =
    (fs : Fields) × (line ≡ obj fs)
    × HasRequired is_blank (to_dict fs) m.required
    × HasDeclared (keys m.fields) (to_dict fs)

abbrev pub EachLine : LineMapping → Items → Type 0
EachLine m nil = Unit
EachLine m (cons line lines) = IsCompleteLine m line × EachLine m lines

-- A list of lines that is not empty, all of them complete.
abbrev pub IsCompleteTable : LineMapping → Value → Type 0
IsCompleteTable m v =
    (line : Value) × (lines : Items) × (v ≡ arr (cons line lines)) × EachLine m (cons line lines)

-- The record has every required field and none that is undeclared, and each table that it has is
-- complete.
abbrev pub IsComplete : RecordMapping → Object → Type 0
IsComplete m source =
    HasRequired is_blank_or_empty source m.required
    × HasDeclared (declared_names m) source
    × All
        (λ (table : String × LineMapping).
          (v : Value) → get table.0 source ≡ some v → IsCompleteTable table.1 v)
        m.lines

ok_inj : {A : Type 0} {a b : A} → ok a ≡ ok b → a ≡ b
ok_inj e = cc

map_line-gaps :
    (m : LineMapping) (place : String) (line : Value) (out : Items) (gaps : List String)
    → map_line m place line ≡ ok (out, gaps)
    → NoElement gaps ↔ IsCompleteLine m line
unfolding map_line
map_line-gaps m place (obj fs) out gaps e =
    let (mapped, carries, rest) = >>=-eq-ok (carry m.converters m.fields (to_dict fs) []) _ e in
    let here = required_gaps-nil is_blank (place <> ".") (to_dict fs) m.required in
    let known = undeclared_gaps-nil (place <> ".") (keys m.fields) (to_dict fs) in
    let both =
      append-nil_iff (required_gaps is_blank (place <> ".") (to_dict fs) m.required)
        (undeclared_gaps (place <> ".") (keys m.fields) (to_dict fs)) in
    let same = ap (λ (p : Items × List String). p.1) (ok_inj rest) in
    (
      λ none_left. let (a, b) = both.0 (same ∙ none_left) in (fs, refl, here.0 a, known.0 b),
      λ (gs, is, required, declared).
          let fields : fs ≡ gs = cc in
          sym same ∙ both.1 (here.1 (rw fields required), known.1 (rw fields declared)),
    )
map_line-gaps m place null out gaps e = (λ h. cc (h, e), λ (gs, is, _, _). cc)
map_line-gaps m place (bool b) out gaps e = (λ h. cc (h, e), λ (gs, is, _, _). cc)
map_line-gaps m place (int n) out gaps e = (λ h. cc (h, e), λ (gs, is, _, _). cc)
map_line-gaps m place (str s) out gaps e = (λ h. cc (h, e), λ (gs, is, _, _). cc)
map_line-gaps m place (arr xs) out gaps e = (λ h. cc (h, e), λ (gs, is, _, _). cc)

map_lines-gaps :
    (m : LineMapping) (field_name : String) (i : ℕ) (lines out : Items) (gaps : List String)
    → map_lines m field_name i lines ≡ ok (out, gaps)
    → NoElement gaps ↔ EachLine m lines
unfolding map_lines
map_lines-gaps m field_name i nil out gaps e = (λ h. tt, λ h. cc)
map_lines-gaps m field_name i (cons line lines) out gaps e =
    let ((mapped, here), first, rest) = >>=-eq-ok (map_line m (place_of field_name i) line) _ e in
    let ((later, more), others, last) = >>=-eq-ok (map_lines m field_name (suc i) lines) _ rest in
    let one = map_line-gaps m (place_of field_name i) line mapped here first in
    let all = map_lines-gaps m field_name (suc i) lines later more others in
    let both = append-nil_iff here more in
    let same = ap (λ (p : Items × List String). p.1) (ok_inj last) in
    (
      λ none_left. let (a, b) = both.0 (same ∙ none_left) in (one.0 a, all.0 b),
      λ (a, b). sym same ∙ both.1 (one.1 a, all.1 b),
    )

apply_lines-gaps :
    (m : LineMapping) (field_name : String) (v : Value) (out : Items) (gaps : List String)
    → apply_lines m field_name v ≡ ok (out, gaps)
    → NoElement gaps ↔ IsCompleteTable m v
unfolding apply_lines
apply_lines-gaps m field_name (arr (cons line lines)) out gaps e =
    let each = map_lines-gaps m field_name 0 (cons line lines) out gaps e in
    (
      λ h. (line, lines, refl, each.0 h),
      λ (line', lines', is, all). each.1 (subst (EachLine m) (sym (arr_inj is)) all),
    )
  where
    arr_inj : {xs ys : Items} → arr xs ≡ arr ys → xs ≡ ys
    arr_inj e = cc
apply_lines-gaps m field_name (arr nil) out gaps e = (λ h. cc (h, e), λ (_, _, is, _). cc)
apply_lines-gaps m field_name null out gaps e = (λ h. cc (h, e), λ (_, _, is, _). cc)
apply_lines-gaps m field_name (bool b) out gaps e = (λ h. cc (h, e), λ (_, _, is, _). cc)
apply_lines-gaps m field_name (int n) out gaps e = (λ h. cc (h, e), λ (_, _, is, _). cc)
apply_lines-gaps m field_name (str s) out gaps e = (λ h. cc (h, e), λ (_, _, is, _). cc)
apply_lines-gaps m field_name (obj fs) out gaps e = (λ h. cc (h, e), λ (_, _, is, _). cc)

abbrev HasTables : Object → Dict String LineMapping → Type 0
HasTables source tables =
    All
      (λ (table : String × LineMapping).
        (v : Value) → get table.0 source ≡ some v → IsCompleteTable table.1 v)
      tables

map_tables-gaps :
    (tables : Dict String LineMapping) (source out left : Object) (gaps : List String)
    → map_tables tables source out ≡ ok (left, gaps)
    → NoElement gaps ↔ HasTables source tables
unfolding map_tables
map_tables-gaps [] source out left gaps e = (λ h. tt, λ h. cc)
map_tables-gaps ((src, m) ∷ tables) source out left gaps e = elim (Option-cases (get src source)) [
  | inl absent ↦
      let all = map_tables-gaps tables source out left gaps (rw (map_tables, absent) at e) in
      (λ h. ((λ v there. cc (absent, there)), all.0 h), λ h. all.1 h.1)
  | inr (v, present) ↦
      let ((mapped, here), first, rest) =
        >>=-eq-ok (apply_lines m src v) _ (rw (map_tables, present) at e) in
      let ((later, more), others, last) =
        >>=-eq-ok (map_tables tables source (put m.target (arr mapped) out)) _ rest in
      let one = apply_lines-gaps m src v mapped here first in
      let all = map_tables-gaps tables source (put m.target (arr mapped) out) later more others in
      let both = append-nil_iff here more in
      let same = ap (λ (p : Object × List String). p.1) (ok_inj last) in
      (
        λ none_left.
            let (a, b) = both.0 (same ∙ none_left) in
            (λ w there. let is : v ≡ w = cc in rw (← is) (one.0 a), all.0 b),
        λ (a, b). sym same ∙ both.1 (one.1 (a v present), all.1 b),
      )
]

scan-gaps :
    (m : RecordMapping) (source out : Object) (gaps : List String)
    → scan m source ≡ ok (out, gaps)
    → NoElement gaps ↔ IsComplete m source
unfolding scan record_gaps
scan-gaps m source out gaps e =
    let (first, carries, rest) = >>=-eq-ok (carry m.converters m.fields source []) _ e in
    let ((left, more), tables, last) = >>=-eq-ok (map_tables m.lines source first) _ rest in
    let required = required_gaps-nil is_blank_or_empty "" source m.required in
    let declared = undeclared_gaps-nil "" (declared_names m) source in
    let lines = map_tables-gaps m.lines source first left more tables in
    let own =
      append-nil_iff (required_gaps is_blank_or_empty "" source m.required)
        (undeclared_gaps "" (declared_names m) source) in
    let both = append-nil_iff (record_gaps m source) more in
    let same = ap (λ (p : Object × List String). p.1) (ok_inj last) in
    (
      λ none_left.
          let (a, b) = both.0 (same ∙ none_left) in
          let (c, d) = own.0 a in (required.0 c, declared.0 d, lines.0 b),
      λ (c, d, b). sym same ∙ both.1 (own.1 (required.1 c, declared.1 d), lines.1 b),
    )

blocked-ok :
    (name : String) (out out' : Object) (gaps : List String)
    → blocked_by name out gaps ≡ ok out'
    → (gaps ≡ []) × (out ≡ out')
blocked-ok name out out' [] e = (refl, ok_inj e)
blocked-ok name out out' (gap ∷ gaps) e = cc

-- A record is mapped exactly when it is complete and no conversion of a field fails; what it is mapped
-- to is what the loops over its fields and tables made.
pub apply-IsComplete :
    (m : RecordMapping) (source out : Object)
    → (apply m source ≡ ok out)
      ↔ (((gaps : List String) × (scan m source ≡ ok (out, gaps))) × IsComplete m source)
unfolding apply
apply-IsComplete m source out = (
  λ e.
      let ((made, gaps), scanned, rest) = >>=-eq-ok (scan m source) _ e in
      let (none_left, same) = blocked-ok m.source_schema made out gaps rest in
      (
        (gaps, scanned ∙ ap (λ (o : Object). ok (o, gaps)) same),
        (scan-gaps m source made gaps scanned).0 none_left,
      ),
  λ ((gaps, scanned), complete).
      rw (scanned, (scan-gaps m source out gaps scanned).1 complete) refl,
)
