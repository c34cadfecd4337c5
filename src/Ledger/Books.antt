-- ===== src/Ledger/Books.antt =====
-- What holds of the books, whatever events the posting agent handles.
use cavi_erp.Prelude.{
  ◌≡◌, refl, inl, inr, String, Bool, true, false, ◌&&◌, Bool-cases, Option, none, some, List, [],
  ◌∷◌, ◌++◌, string_eq, arith, All, All-append,
}
use cavi_erp.Prelude.Int.{ℤ, pos, ◌+ℤ◌, eqb_ℤ_iff}
use cavi_erp.Dict.{get, put, has_key}
use cavi_erp.Error.{Result, ok, err}
use cavi_erp.Exec.Triple.{Keeps, keeps_rules, Keeps-bind, Keeps-state, Keeps-pure, Keeps-raise}
use cavi_erp.Services.{Services}
use cavi_erp.Agent.Event.{Event}
use cavi_erp.Agent.Runtime.{Agent, Runtime, run}
use cavi_erp.Agent.Frame.{Of, Keeps-emit_new, Keeps-run, Keeps-set_own}
use cavi_erp.Ledger.Entry.{JournalEntry, Direction, debit, credit, is_balanced, total}
use cavi_erp.Ledger.Store.{Books, PostResult, insert_if_absent, post}
use cavi_erp.Ledger.PostingAgent.{report, handle_for, on_event}

-- An entry stands under its own id, and its debits equal its credits.
abbrev pub IsPosted : String × JournalEntry → Type 0
IsPosted (key, entry) = (entry.entry_id ≡ key) × (is_balanced entry ≡ true)

-- What is inserted while its key is absent comes last.
put_new :
    (k : String) (e : JournalEntry) (books : Books)
    → has_key k books ≡ false
    → put k e books ≡ books ++ (k, e) ∷ []
unfolding get put
put_new k e [] h = refl
put_new k e ((j, d) ∷ books) h = ground (arith, put_new k e books)

module _ (P : Books → Type 0) where
  -- What an insertion of a balanced entry under an absent key keeps, the agent keeps.
  abbrev Grows : Type 0
  Grows =
      (e : JournalEntry) (books : Books)
      → is_balanced e ≡ true
      → has_key e.entry_id books ≡ false
      → P books
      → P (books ++ (e.entry_id, e) ∷ [])

  insert_if_absent-keeps :
      Grows
      → (e : JournalEntry) → is_balanced e ≡ true
      → (books : Books) → P books
      → P (insert_if_absent e books).1
  unfolding insert_if_absent
  insert_if_absent-keeps grows e balanced books p = elim (Bool-cases (has_key e.entry_id books)) [
    | inl old ↦ rw (old, insert_if_absent) p
    | inr new ↦
        rw (new, insert_if_absent)
          (rw (put_new e.entry_id e books new) (grows e books balanced new p))
  ]

  Keeps-post : Grows → (e : JournalEntry) → Keeps (Of P) (post e)
  unfolding post
  Keeps-post grows e = elim (Bool-cases (is_balanced e)) [
    | inl balanced ↦ rw balanced (
        Keeps-bind _ _ (record { at = λ s p. p })
          λ inserted.
            Keeps-bind _ _ (Keeps-set_own P _ (insert_if_absent-keeps grows e balanced))
              λ _. Keeps-pure _)
    | inr not_balanced ↦ rw not_balanced (Keeps-raise _)
  ]

  module _ (services : Services) where
    Keeps-report :
        (e : Event) (tenant_id : String) (entry : JournalEntry) (r : Result PostResult)
        → Keeps (Of P) (report services e tenant_id entry r)
    unfolding report
    Keeps-report e tenant_id entry (err raised) = search (keeps_rules, Keeps-emit_new services P)
    Keeps-report e tenant_id entry (ok result) = search (keeps_rules, Keeps-emit_new services P)

    Keeps-handle_for :
        Grows
        → (e : Event) (tenant_id : Option String) → Keeps (Of P) (handle_for services e tenant_id)
    unfolding handle_for
    Keeps-handle_for grows e none = Keeps-pure _
    Keeps-handle_for grows e (some tenant_id) =
        search (keeps_rules, Keeps-post grows, Keeps-report e tenant_id)

    -- What an insertion keeps holds of the books after any events.
    pub books_after :
        Grows
        → (events : List Event) (s : Agent Books) → P s.own
        → P (run services "ledger" (on_event services) events s).1.own
    unfolding on_event
    books_after grows events s p =
        Keeps-state _ s (Keeps-run services P "ledger" _ events (every events)) p
      where
        every : (es : List Event) → All (λ e. Keeps (Of P) (on_event services e)) es
        every [] = tt
        every (e ∷ es) = (Keeps-handle_for grows e e.tenant_id, every es)

-- The sum, over all posted entries, of the amounts in one direction.
abbrev pub book_total : Direction → Books → ℤ
book_total d [] = pos 0
book_total d ((k, e) ∷ books) = total d e.lines +ℤ book_total d books

and_true : (a b : Bool) → (a && b) ≡ true → (a ≡ true) × (b ≡ true)
and_true a b h = ground arith

pub is_balanced-eq :
    (e : JournalEntry) → is_balanced e ≡ true → total debit e.lines ≡ total credit e.lines
unfolding is_balanced
is_balanced-eq e h = (eqb_ℤ_iff _ _).0 (and_true _ _ h).0

in_balance : (books : Books) → All IsPosted books → book_total debit books ≡ book_total credit books
in_balance [] all = refl
in_balance ((k, e) ∷ books) ((_, balanced), all) =
    rw (is_balanced-eq e balanced, in_balance books all) refl

get-append :
    (k : String) (e : JournalEntry) (books more : Books)
    → get k books ≡ some e
    → get k (books ++ more) ≡ some e
unfolding get
get-append k e [] more h = cc
get-append k e ((j, d) ∷ books) more h = ground (arith, get-append k e books more)

module _ (services : Services) where
  -- Whatever events the agent handles, starting from empty books, every entry in the books stands
  -- under its own id and has debits equal to its credits and positive, and over all entries the
  -- debits equal the credits.
  pub books_balance :
      (events : List Event) (runtime : Runtime)
      → let books =
          (run services "ledger"
            (on_event services)
            events
            (record { own = []; runtime = runtime })).1.own in
        All IsPosted books × (book_total debit books ≡ book_total credit books)
  books_balance events runtime =
      let all =
        books_after (All IsPosted) services
          (λ e books balanced new all. All-append IsPosted books _ all ((refl, balanced), tt))
          events _ tt in
      (all, in_balance _ all)

  -- Whatever events the agent handles, an entry in the books stays there unchanged.
  pub books_keep :
      (events : List Event) (s : Agent Books) (k : String) (e : JournalEntry)
      → get k s.own ≡ some e
      → get k (run services "ledger" (on_event services) events s).1.own ≡ some e
  books_keep events s k e h =
      books_after (λ books. get k books ≡ some e) services
        (λ d books balanced new p. get-append k e books _ p) events s h
