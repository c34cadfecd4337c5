-- ===== src/Ledger/Postgres/Rows.antt =====
-- What a new row changes in the queries.
use cavi_erp.Prelude.{
  ◌≡◌, refl, ap, ◌∙◌, String, Bool, true, false, ◌&&◌, Bool-cases, inl, inr, Option, none, some,
  List, [], ◌∷◌, ◌++◌, ◌==◌, string_eq, if◌then◌else◌, arith,
}
use cavi_erp.Ledger.Entry.{JournalLine}
use cavi_erp.Ledger.Postgres.{Head, LineRow, head_of, lines_with, is_taken, line_rows_of}

pub lines_with-append :
    (t i : String) (rows more : List LineRow)
    → lines_with t i (rows ++ more) ≡ lines_with t i rows ++ lines_with t i more
unfolding lines_with
lines_with-append t i [] more = refl
lines_with-append t i (r ∷ rows) more = elim (Bool-cases (r.tenant_id == t && r.entry_id == i)) [
  | inl here ↦ rw here (ap (λ l. r.line ∷ l) (lines_with-append t i rows more))
  | inr other ↦ rw other (lines_with-append t i rows more)
]

pub lines_with-line_rows_of :
    (t i u j : String) (lines : List JournalLine)
    → lines_with t i (line_rows_of j u lines) ≡ (if u == t && j == i then lines else [])
unfolding lines_with line_rows_of
lines_with-line_rows_of t i u j [] = ground arith
lines_with-line_rows_of t i u j (l ∷ lines) = elim (Bool-cases (u == t && j == i)) [
  | inl here ↦ rw here (ap (λ r. l ∷ r) (lines_with-line_rows_of t i u j lines ∙ rw here refl))
  | inr other ↦ rw other (lines_with-line_rows_of t i u j lines ∙ rw other refl)
]

abbrev pub or_else : Option Head → Option Head → Option Head
or_else none g = g
or_else (some h) g = some h

pub head_of-snoc :
    (t i : String) (heads : List Head) (h : Head)
    → head_of t i (heads ++ h ∷ [])
      ≡ or_else (head_of t i heads) (if h.tenant_id == t && h.entry_id == i then some h else none)
unfolding head_of
head_of-snoc t i [] h = refl
head_of-snoc t i (g ∷ heads) h = elim (Bool-cases (g.tenant_id == t && g.entry_id == i)) [
  | inl here ↦ rw here refl
  | inr other ↦ rw other (head_of-snoc t i heads h)
]

pub or_else-none : (g : Option Head) → or_else g none ≡ g
or_else-none none = refl
or_else-none (some h) = refl

pub both : (a b : Bool) → a && b ≡ true → (a ≡ true) × (b ≡ true)
both true true h = (refl, refl)
both true false h = cc
both false b h = cc

pub is_taken-snoc :
    (i : String) (heads : List Head) (h : Head)
    → is_taken i (heads ++ h ∷ []) ≡ (if h.entry_id == i then true else is_taken i heads)
unfolding is_taken
is_taken-snoc i [] h = refl
is_taken-snoc i (g ∷ heads) h = ground (arith, is_taken-snoc i heads h)

pub untaken :
    (t i : String) (heads : List Head) → is_taken i heads ≡ false → head_of t i heads ≡ none
unfolding is_taken head_of
untaken t i [] free = refl
untaken t i (h ∷ heads) free = elim (Bool-cases (h.entry_id == i)) [
  | inl here ↦ cc (rw here at free)
  | inr other ↦ ground (arith, untaken t i heads (rw other at free))
]
