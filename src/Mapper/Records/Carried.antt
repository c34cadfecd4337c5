-- ===== src/Mapper/Records/Carried.antt =====
-- What a mapped record holds: every field of the source that has a target arrives there.
use cavi_erp.Prelude.{
  ◌≡◌, refl, sym, ap, ◌∙◌, inl, inr, String, true, Bool-cases, Option-cases, some, List, [], ◌∷◌,
  ◌++◌, ◌==◌, string_eq, eq_iff, contains, All, arith,
}
use cavi_erp.Dict.{Dict, get, put, values}
use cavi_erp.Dict.Laws.{get-put, get-put_self}
use cavi_erp.Json.{Value, Object, Items, arr}
use cavi_erp.Error.{Result, ok, >>=-eq-ok}
use cavi_erp.Mapper.Records.{
  Converter, LineMapping, RecordMapping, carry, map_tables, apply_lines, scan, apply, blocked_by,
  record_gaps,
}
use cavi_erp.Mapper.Records.Targets.{line_targets, Apart, AllApart, Arrives, carry-Arrives}
use cavi_erp.Mapper.Records.Lines.{ListArrives, apply_lines-Arrive, pair_inj, no_gaps}

-- The table, if it is there, stands under its target as a list of as many lines, each of which holds
-- the fields of the source's line at its place.
abbrev pub TableArrives : Object → Object → String × LineMapping → Type 0
TableArrives source out (src, m) =
    (v : Value)
    → get src source ≡ some v
    → (mapped : Items) × (get m.target out ≡ some (arr mapped)) × ListArrives m v mapped

-- No two targets of the table's lines are the same.
abbrev pub LinesApart : String × LineMapping → Type 0
LinesApart (_, m) = AllApart (values m.fields)

map_tables-other :
    (tables : Dict String LineMapping) (source out left : Object) (gaps : List String)
    (target : String)
    → Apart target (line_targets tables)
    → map_tables tables source out ≡ ok (left, gaps)
    → get target left ≡ get target out
unfolding map_tables
map_tables-other [] source out left gaps target apart e = ap (get target) (sym (pair_inj e))
  where
    pair_inj :
        {a b : Object} {g h : List String}
        → ◌≡◌ {A = Result (Object × List String)} (ok (a, g)) (ok (b, h))
        → a ≡ b
    pair_inj e = cc
map_tables-other ((src, m) ∷ tables) source out left gaps target (other, apart) e =
    elim (Option-cases (get src source)) [
      | inl absent ↦
          map_tables-other tables source out left gaps target apart (rw (map_tables, absent) at e)
      | inr (v, there) ↦
          let ((items, here), first, rest) =
            >>=-eq-ok (apply_lines m src v) _ (rw (map_tables, there) at e) in
          let ((later, more), others, last) =
            >>=-eq-ok (map_tables tables source (put m.target (arr items) out)) _ rest in
          let same : later ≡ left = cc in
          rw (← same) (
            map_tables-other tables source (put m.target (arr items) out) later more target apart
              others
            ∙ get-put m.target target (arr items) out
            ∙ ground (arith, eq_iff m.target target))
    ]

map_tables-Arrives :
    (tables : Dict String LineMapping) (source out left : Object) (gaps : List String)
    → AllApart (line_targets tables)
    → All LinesApart tables
    → map_tables tables source out ≡ ok (left, gaps)
    → gaps ≡ []
    → All (TableArrives source left) tables
unfolding map_tables
map_tables-Arrives [] source out left gaps apart lines e none = tt
map_tables-Arrives ((src, m) ∷ tables) source out left gaps (other, apart) (line, lines) e none =
    elim (Option-cases (get src source)) [
      | inl absent ↦ (
        (λ v there. cc (absent, there)),
        map_tables-Arrives tables source out left gaps apart lines (rw (map_tables, absent) at e)
            none,
      )
      | inr (v, there) ↦
          let ((items, here), first, rest) =
            >>=-eq-ok (apply_lines m src v) _ (rw (map_tables, there) at e) in
          let ((later, more), others, last) =
            >>=-eq-ok (map_tables tables source (put m.target (arr items) out)) _ rest in
          let (same, is_gaps) = pair_inj last in
          let (here_none, more_none) = no_gaps here more (is_gaps ∙ none) in
          (
            (λ v' there'.
                let is : v ≡ v' = cc in
                (
                  items,
                  rw (← same) (
                      map_tables-other tables source (put m.target (arr items) out) later more
                        m.target other others
                      ∙ get-put_self m.target (arr items) out),
                  rw (← is) (apply_lines-Arrive m src v items here line first here_none),
                )),
            map_tables-Arrives tables source (put m.target (arr items) out) left more apart lines
                (others ∙ ap (λ (o : Object). ok (o, more)) same) more_none,
          )
    ]

Apart-append :
    (xs ys : List String)
    → AllApart (xs ++ ys)
    → AllApart xs × All (λ (x : String). Apart x ys) xs × AllApart ys
Apart-append [] ys h = (tt, tt, h)
Apart-append (x ∷ xs) ys (here, h) =
    let (a, b, d) = Apart-append xs ys h in let (e, f) = All-split xs here in ((e, a), (f, b), d)
  where
    All-split : (us : List String) → Apart x (us ++ ys) → Apart x us × Apart x ys
    All-split [] h = (tt, h)
    All-split (u ∷ us) (p, h) = let (q, r) = All-split us h in ((p, q), r)

Arrives-kept :
    (converters : Dict String Converter) (fields : Dict String String) (source out left : Object)
    → ((target : String)
        → contains target (values fields) ≡ true
        → get target left ≡ get target out)
    → All (Arrives converters source out) fields
    → All (Arrives converters source left) fields
Arrives-kept converters [] source out left kept h = tt
Arrives-kept converters ((src, t) ∷ fields) source out left kept (here, h) = (
  (λ v there.
      let (w, made, stands) = here v there in
      (w, made, kept t (ground (arith, eq_iff t t)) ∙ stands)),
  Arrives-kept converters fields source out left
      (λ target known. kept target (ground (arith, known))) h,
)

Apart-values :
    (xs ys : List String) (x : String)
    → All (λ (x : String). Apart x ys) xs
    → contains x xs ≡ true
    → Apart x ys
Apart-values [] ys x h known = cc
Apart-values (y ∷ xs) ys x (here, h) known = elim (Bool-cases (x == y)) [
  | inl same ↦ let is : x ≡ y = (eq_iff x y).0 same in rw is here
  | inr other ↦ Apart-values xs ys x h (rw other at known)
]

-- Where no two targets of a mapping are the same, nor two targets of the lines of one of its tables, a
-- mapped record holds, under its target, each field of the source that is not null, converted, and each
-- table that the source has. The source's table is a list of objects, and what stands under the target
-- is a list with one object for each of them, in their order, which holds each field of its line that
-- is not null, converted: nothing is dropped on the way and nothing is overwritten.
pub apply-Arrives :
    (m : RecordMapping) (source out : Object)
    → AllApart (values m.fields ++ line_targets m.lines)
    → All LinesApart m.lines
    → apply m source ≡ ok out
    → All (Arrives m.converters source out) m.fields × All (TableArrives source out) m.lines
unfolding apply scan
apply-Arrives m source out apart lines e =
    let ((made, gaps), scanned, rest) = >>=-eq-ok (scan m source) _ e in
    let (first, carries, went) = >>=-eq-ok (carry m.converters m.fields source []) _ scanned in
    let ((left, more), tables, last) = >>=-eq-ok (map_tables m.lines source first) _ went in
    let (fields_apart, across, tables_apart) =
      Apart-append (values m.fields) (line_targets m.lines) apart in
    let (is_made, is_gaps) = pair_inj last in
    let (is_out, unblocked_gaps) = unblocked m.source_schema made gaps rest in
    let more_none = (no_gaps (record_gaps m source) more (is_gaps ∙ unblocked_gaps)).1 in
    rw (← is_out, ← is_made)
      (
        Arrives-kept m.converters m.fields source first left
            (λ target known.
              map_tables-other m.lines source first left more target
                (Apart-values (values m.fields) (line_targets m.lines) target across known) tables)
            (carry-Arrives m.converters m.fields source [] first fields_apart carries),
        map_tables-Arrives m.lines source first left more tables_apart lines tables more_none,
      )
  where
    unblocked :
        (name : String) (a : Object) (g : List String)
        → blocked_by name a g ≡ ok out
        → (a ≡ out) × (g ≡ [])
    unblocked name a [] e = (cc, refl)
    unblocked name a (gap ∷ g) e = cc
