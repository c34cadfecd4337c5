-- ===== src/Ledger/Store.antt =====
-- agents/ledger/ledger.py: the store of the posted entries, and posting.
use cavi_erp.Prelude.{
  ℕ, String, Bool, true, false, not, Option, none, some, ◌==◌, string_eq, if◌then◌else◌, length,
  ◌<>◌,
}
use cavi_erp.Prelude.Int.{ℤ, show_ℤ}
use cavi_erp.Dict.{Dict, get, put, has_key}
use cavi_erp.Error.{Error}
use cavi_erp.Exec.{Exec, pure, raise, gets, ◌>>=◌, ◌>>◌}
use cavi_erp.Agent.Runtime.{Agent, set_own}
use cavi_erp.Ledger.Entry.{JournalEntry, is_balanced, total_debits, total_credits}

-- `InMemoryLedgerStore._entries`
abbrev pub Books : Type 0
Books = Dict String JournalEntry

abbrev pub visible : String → Option JournalEntry → Option JournalEntry
visible tenant_id none = none
visible tenant_id (some entry) = if entry.tenant_id == tenant_id then some entry else none

-- `InMemoryLedgerStore.get`: an entry is only visible to its owning tenant.
unfoldable pub get_entry : String → String → Books → Option JournalEntry
get_entry tenant_id entry_id books = visible tenant_id (get entry_id books)

-- `InMemoryLedgerStore.insert_if_absent`
unfoldable pub insert_if_absent : JournalEntry → Books → Bool × Books
insert_if_absent entry books =
    if has_key entry.entry_id books then (false, books) else (true, put entry.entry_id entry books)

pub record PostResult : Type 0 where
  pub entry_id : String
  pub currency : String
  pub status : String
  pub total_minor : ℤ
  pub line_count : ℕ

abbrev pub status_of : Bool → String
status_of true = "posted"
status_of false = "duplicate"

abbrev pub unbalanced : JournalEntry → Error
unbalanced entry = Error.unbalanced_entry (
    "entry "
    <> entry.entry_id
    <> ": debits "
    <> show_ℤ (total_debits entry)
    <> " != credits "
    <> show_ℤ (total_credits entry))

-- `Ledger.post`
unfoldable pub post : JournalEntry → Exec (Agent Books) PostResult
unfolding insert_if_absent
post entry = if not (is_balanced entry) then raise (unbalanced entry) else (do
  inserted ← gets (λ s. (insert_if_absent entry s.own).0)
  set_own (λ books. (insert_if_absent entry books).1)
  pure (record {
    entry_id = entry.entry_id;
    currency = entry.currency;
    status = status_of inserted;
    total_minor = total_debits entry;
    line_count = length entry.lines;
  }))
