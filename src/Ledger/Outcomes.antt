-- ===== src/Ledger/Outcomes.antt =====
-- What the posting agent does with one entry: the three outcomes, and what a redelivery does.
use cavi_erp.Prelude.{
  ◌≡◌, ◌≢◌, refl, ◌∙◌, inl, inr, String, true, not, Bool-cases, none, some, string_eq, eq_iff,
  if◌then◌else◌, nonempty, arith, length,
}
use cavi_erp.Prelude.Int.{pos}
use cavi_erp.Dict.{get, put, has_key}
use cavi_erp.Dict.Laws.{has_key-put_self, has_key-some}
use cavi_erp.Json.{Object}
use cavi_erp.Error.{ok, message}
use cavi_erp.Exec.{Exec, ◌>>=◌, attempt}
use cavi_erp.Services.{Services}
use cavi_erp.Agent.Event.{Event}
use cavi_erp.Agent.Runtime.{Agent, emit_new}
use cavi_erp.Agent.Frame.{Keeps-emit_new}
use cavi_erp.Exec.Triple.{Keeps-state}
use cavi_erp.Ledger.Entry.{JournalEntry, is_balanced, total_debits, from_payload}
use cavi_erp.Ledger.Store.{Books, PostResult, get_entry, insert_if_absent, post, unbalanced}
use cavi_erp.Ledger.PostingAgent.{report, handle_for, on_event, rejected_payload, posted_payload}

module _ (services : Services) (e : Event) (tenant_id : String) (entry : JournalEntry) where
  abbrev pub announce : String → Object → Exec (Agent Books) (Unit {0})
  announce subject payload =
      emit_new services "ledger" subject (pos 1) e.correlation_id (some tenant_id) payload

  -- The event carries this entry for this tenant.
  pub record Carries : Type 0 where
    pub tenant : e.tenant_id ≡ some tenant_id
    pub named : nonempty tenant_id ≡ true
    pub parsed : from_payload e.payload tenant_id ≡ ok entry

  abbrev pub posted_result : PostResult
  posted_result = record {
    entry_id = entry.entry_id;
    currency = entry.currency;
    status = "posted";
    total_minor = total_debits entry;
    line_count = length entry.lines;
  }

  -- What handling the event does in the state `s`.
  abbrev pub Outcome : Agent Books → Type 0
  Outcome s = on_event services e s ≡ (
      if not (is_balanced entry)
      then announce "ledger.rejected" (rejected_payload entry (message (unbalanced entry))) s
      else if has_key entry.entry_id s.own
      then (ok tt, s)
      else announce "ledger.posted" (posted_payload posted_result)
          (record s { own = put entry.entry_id entry s.own }))

  -- An entry that is not balanced leaves the books alone and is announced as rejected; one whose id
  -- is in the books changes nothing at all; any other is entered in the books and announced as
  -- posted.
  pub on_event-Outcome : (s : Agent Books) → Carries → Outcome s
  unfolding on_event handle_for report post insert_if_absent ◌>>=◌ attempt
  on_event-Outcome s c = elim (Bool-cases (is_balanced entry)) [
    | inl b ↦ elim (Bool-cases (has_key entry.entry_id s.own)) [
      | inl k ↦ rw (c.tenant, handle_for) (rw (c.named, c.parsed, b, k) refl)
      | inr k ↦ rw (c.tenant, handle_for) (rw (c.named, c.parsed, b, k) refl)
    ]
    | inr n ↦ rw (c.tenant, handle_for) (rw (c.named, c.parsed, n) refl)
  ]

  entered :
      (s : Agent Books)
      → Carries
      → is_balanced entry ≡ true
      → has_key entry.entry_id (on_event services e s).1.own ≡ true
  entered s c b =
      rw (on_event-Outcome s c, b)
        (elim (Bool-cases (has_key entry.entry_id s.own)) [
          | inl k ↦ rw k k
          | inr k ↦ rw k (
              Keeps-state _ (record s { own = put entry.entry_id entry s.own })
                (Keeps-emit_new services (λ books. has_key entry.entry_id books ≡ true) "ledger"
                  "ledger.posted" (pos 1) e.correlation_id (some tenant_id)
                  (posted_payload posted_result))
                (has_key-put_self entry.entry_id entry s.own))
        ])

  -- A balanced entry that is delivered again, in whatever state and whether or not the first
  -- delivery raised, changes nothing: neither the books, nor the event log, nor the bus.
  pub on_event_redelivered :
      (s : Agent Books)
      → Carries
      → is_balanced entry ≡ true
      → on_event services e (on_event services e s).1 ≡ (ok tt, (on_event services e s).1)
  on_event_redelivered s c b =
      on_event-Outcome (on_event services e s).1 c ∙ rw (b, entered s c b) refl

  -- A balanced entry whose id another tenant has used already is neither posted nor rejected: no
  -- event announces an outcome, and its tenant does not find it in the books.
  pub foreign_duplicate :
      (s : Agent Books) (other : JournalEntry)
      → Carries
      → is_balanced entry ≡ true
      → get entry.entry_id s.own ≡ some other
      → other.tenant_id ≢ tenant_id
      → (on_event services e s ≡ (ok tt, s)) × (get_entry tenant_id entry.entry_id s.own ≡ none)
  unfolding get_entry
  foreign_duplicate s other c b taken foreign = (
    on_event-Outcome s c ∙ rw (b, has_key-some entry.entry_id other s.own taken) refl,
    rw taken (ground (arith, eq_iff other.tenant_id tenant_id)),
  )
