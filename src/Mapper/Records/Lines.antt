-- ===== src/Mapper/Records/Lines.antt =====
-- The lines of a table arrive, each as one line.
use cavi_erp.Prelude.{◌≡◌, refl, ◌∙◌, sym, ap, String, ℕ, suc, List, [], ◌∷◌, ◌++◌, All}
use cavi_erp.Dict.{values}
use cavi_erp.Json.{
  Value, Object, Items, null, bool, int, str, arr, obj, nil, cons, to_dict, of_dict,
  of_dict-to_dict,
}
use cavi_erp.Error.{ok, >>=-eq-ok}
use cavi_erp.Mapper.Records.{
  LineMapping, Mapped, carry, map_line, map_lines, apply_lines, append_items,
}
use cavi_erp.Mapper.Records.Targets.{AllApart, Arrives, carry-Arrives}

-- The line is an object, and the mapped line holds its fields.
abbrev pub LineArrives : LineMapping → Value → Value → Type 0
LineArrives m line mapped =
    (source made : Object) × (line ≡ obj (of_dict source))
    × (mapped ≡ obj (of_dict made))
    × All (Arrives m.converters source made) m.fields

-- As many lines as the source has, in its order.
abbrev pub LinesArrive : LineMapping → Items → Items → Type 0
LinesArrive m nil mapped = mapped ≡ nil
LinesArrive m (cons line lines) mapped =
    (first : Value) × (later : Items) × (mapped ≡ cons first later)
    × LineArrives m line first
    × LinesArrive m lines later

-- What a line is mapped to, if it leaves no gap.
map_line-Arrives :
    (m : LineMapping) (place : String) (line : Value) (one : Items) (gaps : List String)
    → AllApart (values m.fields)
    → map_line m place line ≡ ok (one, gaps)
    → gaps ≡ []
    → (mapped : Value) × (one ≡ cons mapped nil) × LineArrives m line mapped
unfolding map_line
map_line-Arrives m place (obj fs) one gaps apart e none =
    let (made, carried, last) = >>=-eq-ok (carry m.converters m.fields (to_dict fs) []) _ e in
    (
      obj (of_dict made),
      cc,
      (
        to_dict fs,
        made,
        ap obj (sym (of_dict-to_dict fs)),
        refl,
        carry-Arrives m.converters m.fields (to_dict fs) [] made apart carried,
      ),
    )
map_line-Arrives m place null one gaps apart e none = cc
map_line-Arrives m place (bool b) one gaps apart e none = cc
map_line-Arrives m place (int n) one gaps apart e none = cc
map_line-Arrives m place (str s) one gaps apart e none = cc
map_line-Arrives m place (arr xs) one gaps apart e none = cc

pub no_gaps : (xs ys : List String) → xs ++ ys ≡ [] → (xs ≡ []) × (ys ≡ [])
no_gaps [] ys e = (refl, e)
no_gaps (x ∷ xs) ys e = cc

pub pair_inj :
    {A : Type 0} {a b : A} {g h : List String}
    → ◌≡◌ {A = Mapped A} (ok (a, g)) (ok (b, h))
    → (a ≡ b) × (g ≡ h)
pair_inj e = (cc, cc)

map_lines-Arrive :
    (m : LineMapping) (name : String) (i : ℕ) (items mapped : Items) (gaps : List String)
    → AllApart (values m.fields)
    → map_lines m name i items ≡ ok (mapped, gaps)
    → gaps ≡ []
    → LinesArrive m items mapped
unfolding map_lines
map_lines-Arrive m name i nil mapped gaps apart e none = sym (pair_inj e).0
map_lines-Arrive m name i (cons line lines) mapped gaps apart e none =
    let ((one, g), first, rest) = >>=-eq-ok (map_line m _ line) _ e in
    let ((later, more), others, last) = >>=-eq-ok (map_lines m name (suc i) lines) _ rest in
    let (is_mapped, is_gaps) = pair_inj last in
    let (g_none, more_none) = no_gaps g more (is_gaps ∙ none) in
    let (line', is_one, arrives) = map_line-Arrives m _ line one g apart first g_none in
    (
      line',
      later,
      sym is_mapped ∙ ap (λ o. append_items o later) is_one,
      arrives,
      map_lines-Arrive m name (suc i) lines later more apart others more_none,
    )

-- The table is a list, and its lines arrive.
abbrev pub ListArrives : LineMapping → Value → Items → Type 0
ListArrives m table mapped = (items : Items) × (table ≡ arr items) × LinesArrive m items mapped

pub apply_lines-Arrive :
    (m : LineMapping) (name : String) (table : Value) (mapped : Items) (gaps : List String)
    → AllApart (values m.fields)
    → apply_lines m name table ≡ ok (mapped, gaps)
    → gaps ≡ []
    → ListArrives m table mapped
unfolding apply_lines
apply_lines-Arrive m name (arr (cons line lines)) mapped gaps apart e none =
    (cons line lines, refl, map_lines-Arrive m name 0 (cons line lines) mapped gaps apart e none)
apply_lines-Arrive m name (arr nil) mapped gaps apart e none = cc
apply_lines-Arrive m name null mapped gaps apart e none = cc
apply_lines-Arrive m name (bool b) mapped gaps apart e none = cc
apply_lines-Arrive m name (int n) mapped gaps apart e none = cc
apply_lines-Arrive m name (str s) mapped gaps apart e none = cc
apply_lines-Arrive m name (obj fs) mapped gaps apart e none = cc
