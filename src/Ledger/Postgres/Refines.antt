-- ===== src/Ledger/Postgres/Refines.antt =====
-- The tables keep the promise of the dictionary: they are a refinement of the in-memory store.
use mathlib.Core.List.{append-nil}
use cavi_erp.Prelude.{
  ◌≡◌, ◌⊎◌, refl, sym, ap, ◌∙◌, String, Bool, true, false, ◌&&◌, Bool-cases, Option-cases, inl, inr,
  Option, none, some, List, [], ◌∷◌, ◌++◌, ◌==◌, string_eq, if◌then◌else◌, arith, beq_refl, All,
}
use cavi_erp.Dict.{get, put, has_key}
use cavi_erp.Dict.Laws.{get-put}
use cavi_erp.Error.{Error, ok, err}
use cavi_erp.Ledger.Entry.{JournalEntry}
use cavi_erp.Ledger.Store.{Books, visible, get_entry, insert_if_absent}
use cavi_erp.Ledger.Postgres.{
  Tables, empty_tables, head_of, entry_of, lines_with, get_rows, is_taken, head_row, line_rows_of,
  Constraints, refused_line, insert_rows,
}
use cavi_erp.Ledger.Postgres.Rows.{
  lines_with-append, lines_with-line_rows_of, head_of-snoc, or_else-none, both, is_taken-snoc,
  untaken,
}

-- What the queries find under a canonical id.
abbrev found : String → String → Tables → Option JournalEntry
found t i tables = entry_of t i (head_of t i tables.heads) (lines_with t i tables.line_rows)

-- The tables and the dictionary show every tenant the same entries, and have the same ids.
pub record Represents (tables : Tables) (books : Books) : Type 0 where
  pub same : (t i : String) → found t i tables ≡ get_entry t i books
  pub taken : (i : String) → is_taken i tables.heads ≡ has_key i books
  pub owned :
      (t i : String) → is_taken i tables.heads ≡ false → lines_with t i tables.line_rows ≡ []

abbrev with_entry : Tables → JournalEntry → Tables
with_entry tables e = record {
  heads = tables.heads ++ head_row e.entry_id e ∷ [];
  line_rows = tables.line_rows ++ line_rows_of e.entry_id e.tenant_id e.lines;
}

abbrev is_of : String → String → JournalEntry → Bool
is_of t i e = e.tenant_id == t && e.entry_id == i

lines-with_entry :
    (t i : String) (tables : Tables) (e : JournalEntry)
    → lines_with t i (with_entry tables e).line_rows
      ≡ lines_with t i tables.line_rows ++ (if is_of t i e then e.lines else [])
lines-with_entry t i tables e =
    lines_with-append t i tables.line_rows _
    ∙ ap (λ l. lines_with t i tables.line_rows ++ l)
        (lines_with-line_rows_of t i e.tenant_id e.entry_id e.lines)

module _ (tables : Tables) (books : Books) (e : JournalEntry) (rep : Represents tables books)
    (free : is_taken e.entry_id tables.heads ≡ false) where
  taken-with_entry :
      (i : String) → is_taken i (with_entry tables e).heads ≡ has_key i (put e.entry_id e books)
  taken-with_entry i = ground (
    arith,
    is_taken-snoc i tables.heads (head_row e.entry_id e),
    get-put e.entry_id i e books,
    rep.taken i,
  )

  owned-with_entry :
      (t i : String)
      → is_taken i (with_entry tables e).heads ≡ false
      → lines_with t i (with_entry tables e).line_rows ≡ []
  owned-with_entry t i unused = elim (Bool-cases (e.entry_id == i)) [
    | inl here ↦
        let now : is_taken i (with_entry tables e).heads ≡ true =
          ground (arith, is_taken-snoc i tables.heads (head_row e.entry_id e), here) in
        cc (now, unused)
    | inr other ↦
        let before : is_taken i tables.heads ≡ false =
          ground (arith, is_taken-snoc i tables.heads (head_row e.entry_id e), other, unused) in
        let not_of : is_of t i e ≡ false = ground (arith, other) in
        lines-with_entry t i tables e ∙ rw (not_of, rep.owned t i before) refl
  ]

  get_entry-put :
      (t i : String)
      → get_entry t i (put e.entry_id e books)
        ≡ (if e.entry_id == i then visible t (some e) else get_entry t i books)
  unfolding get_entry
  get_entry-put t i = elim (Bool-cases (e.entry_id == i)) [
    | inl here ↦ rw (get-put e.entry_id i e books, here) refl
    | inr other ↦ rw (get-put e.entry_id i e books, other) refl
  ]

  -- The new entry is read back.
  own-with_entry : found e.tenant_id e.entry_id (with_entry tables e) ≡ some e
  own-with_entry =
      let mine : is_of e.tenant_id e.entry_id e ≡ true =
        ground (arith, beq_refl e.tenant_id, beq_refl e.entry_id) in
      rw
        (
          head_of-snoc e.tenant_id e.entry_id tables.heads (head_row e.entry_id e),
          untaken e.tenant_id e.entry_id tables.heads free,
          lines-with_entry e.tenant_id e.entry_id tables e,
          rep.owned e.tenant_id e.entry_id free,
          mine,
        )
        refl

  -- No other read changes.
  others-with_entry :
      (t i : String) → is_of t i e ≡ false → found t i (with_entry tables e) ≡ found t i tables
  others-with_entry t i other =
      rw
        (
          head_of-snoc t i tables.heads (head_row e.entry_id e),
          lines-with_entry t i tables e,
          other,
          or_else-none (head_of t i tables.heads),
          append-nil (lines_with t i tables.line_rows),
        )
        refl

  -- What nobody could read is hidden from the others.
  hidden : (t i : String) → is_taken i tables.heads ≡ false → get_entry t i books ≡ none
  hidden t i unused =
      sym (rep.same t i)
      ∙ ap (λ h. entry_of t i h (lines_with t i tables.line_rows)) (untaken t i tables.heads unused)

  others-put :
      (t i : String)
      → is_of t i e ≡ false
      → get_entry t i (put e.entry_id e books) ≡ get_entry t i books
  others-put t i other = elim (Bool-cases (e.entry_id == i)) [
    | inl here ↦
        let id : e.entry_id ≡ i = (string_eq.beq_iff e.entry_id i).0 here in
        let foreign : (e.tenant_id == t) ≡ false = ground (arith, other, here) in
        rw (get_entry-put t i, here, foreign) (sym (hidden t i (rw (← id) free)))
    | inr elsewhere ↦ rw (get_entry-put t i, elsewhere) refl
  ]

  same-with_entry :
      (t i : String) → found t i (with_entry tables e) ≡ get_entry t i (put e.entry_id e books)
  same-with_entry t i = elim (Bool-cases (is_of t i e)) [
    | inl mine ↦
        let (tenant, id) = both (e.tenant_id == t) (e.entry_id == i) mine in
        let t' : e.tenant_id ≡ t = (string_eq.beq_iff e.tenant_id t).0 tenant in
        let i' : e.entry_id ≡ i = (string_eq.beq_iff e.entry_id i).0 id in
        rw (get_entry-put t i, id, tenant, ← t', ← i') own-with_entry
    | inr other ↦ others-with_entry t i other ∙ rep.same t i ∙ sym (others-put t i other)
  ]

  Represents-with_entry : Represents (with_entry tables e) (put e.entry_id e books)
  Represents-with_entry = record {
    same = same-with_entry;
    taken = taken-with_entry;
    owned = owned-with_entry;
  }

module _ (constraints : Constraints) where
  -- The id of the entry is spelled in the way in which the database gives UUIDs back.
  abbrev pub IsCanonical : String → Type 0
  IsCanonical entry_id = constraints.uuid entry_id ≡ some entry_id

  -- A constraint of the database refuses a row of the entry, the head, or, where the id is free, one
  -- of the lines; and nothing is written.
  abbrev pub Refused : JournalEntry → Tables → Type 0
  Refused e tables =
      (m : String) × (insert_rows constraints e tables ≡ (err (Error.database_error m), tables))
      × ((constraints.head (head_row e.entry_id e) ≡ some m)
          ⊎ ((is_taken e.entry_id tables.heads ≡ false)
              × (refused_line constraints (line_rows_of e.entry_id e.tenant_id e.lines) ≡ some m)))

  -- The same answer, and tables that still stand for the books.
  abbrev pub Agrees : JournalEntry → Tables → Books → Type 0
  Agrees e tables books =
      ((insert_rows constraints e tables).0 ≡ ok (insert_if_absent e books).0)
      × Represents (insert_rows constraints e tables).1 (insert_if_absent e books).1

  insert_rows-Agrees :
      (e : JournalEntry) (tables : Tables) (books : Books)
      → IsCanonical e.entry_id
      → Represents tables books
      → Refused e tables ⊎ Agrees e tables books
  unfolding insert_rows insert_if_absent
  insert_rows-Agrees e tables books id rep =
      elim (Option-cases (constraints.head (head_row e.entry_id e))) [
        | inr (m, bad) ↦ inl (m, rw (id, bad) refl, inl bad)
        | inl fine ↦ elim (Bool-cases (is_taken e.entry_id tables.heads)) [
          | inl old ↦ rw (id, fine, old) (inr (rw (sym (rep.taken e.entry_id) ∙ old) (refl, rep)))
          | inr free ↦
              elim (Option-cases
                (refused_line constraints (line_rows_of e.entry_id e.tenant_id e.lines))) [
                  | inr (m, bad) ↦ inl (m, rw (id, fine, free, bad) refl, inr (free, bad))
                  | inl good ↦
                      rw (id, fine, free, good)
                        (inr (
                          rw (sym (rep.taken e.entry_id) ∙ free)
                            (refl, Represents-with_entry tables books e rep free)))
                ]
        ]
      ]

  -- Insertions in turn, into the tables and into the dictionary.
  abbrev pub Simulates : List JournalEntry → Tables → Books → Type 0
  Simulates [] tables books =
      (t i : String) → IsCanonical i → get_rows constraints t i tables ≡ ok (get_entry t i books)
  Simulates (e ∷ es) tables books =
      (Refused e tables × Simulates es tables books)
      ⊎ (((insert_rows constraints e tables).0 ≡ ok (insert_if_absent e books).0)
          × Simulates es (insert_rows constraints e tables).1 (insert_if_absent e books).1)

  Represents-Simulates :
      (es : List JournalEntry) (tables : Tables) (books : Books)
      → All (λ (e : JournalEntry). IsCanonical e.entry_id) es
      → Represents tables books
      → Simulates es tables books
  unfolding get_rows
  Represents-Simulates [] tables books ids rep = λ t i id. rw id (ap ok (rep.same t i))
  Represents-Simulates (e ∷ es) tables books (id, ids) rep =
      elim (insert_rows-Agrees e tables books id rep) [
        | inl refused ↦ inl (refused, Represents-Simulates es tables books ids rep)
        | inr (answer, rep') ↦ inr (answer, Represents-Simulates es _ _ ids rep')
      ]

  Represents-empty : Represents empty_tables []
  unfolding head_of is_taken lines_with get_entry get
  Represents-empty = record { same = λ t i. refl; taken = λ i. refl; owned = λ t i unused. refl }

  -- The tables implement the in-memory store, for entries whose ids are spelled in the database's
  -- canonical way of UUIDs. Whatever such entries are inserted in turn, each insertion gives the answer
  -- that the in-memory store gives, unless a constraint refuses its head, or, where its id is free, one
  -- of its lines: then that error is raised and the tables stay as they were. At the end every tenant
  -- reads, under every canonical id, the same entry as from the in-memory store that had the insertions
  -- that were not refused.
  pub insert_rows-Simulates :
      (es : List JournalEntry)
      → All (λ (e : JournalEntry). IsCanonical e.entry_id) es
      → Simulates es empty_tables []
  insert_rows-Simulates es ids = Represents-Simulates es empty_tables [] ids Represents-empty
