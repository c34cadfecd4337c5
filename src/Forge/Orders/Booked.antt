-- ===== src/Forge/Orders/Booked.antt =====
-- From a completed order to the books: what the order agent announces is what the ledger posts.
use cavi_erp.Prelude.{◌≡◌, refl, ◌∙◌, String, true, false, some, string_eq, nonempty}
use cavi_erp.Prelude.Int.{pos, ltb_ℤ}
use cavi_erp.Dict.{put, has_key}
use cavi_erp.Error.{ok}
use cavi_erp.Services.{Services}
use cavi_erp.Agent.Event.{Event}
use cavi_erp.Agent.Runtime.{Agent, emit_new}
use cavi_erp.Ledger.Entry.{JournalEntry, total_debits}
use cavi_erp.Ledger.Store.{Books}
use cavi_erp.Ledger.PostingAgent.{posted_payload}
use cavi_erp.Ledger.PostingAgent
use cavi_erp.Ledger.Outcomes.{posted_result, on_event-Outcome}
use cavi_erp.Forge.Orders.{WorkOrder, CompletionResult, complete, gross_minor, ledger_entry_id}
use cavi_erp.Forge.Orders.Recognition.{complete-balances}

module _ (services : Services) (uuid5 : String → String) (e : Event) (order : WorkOrder) where
  -- The ledger entry that `order` gave was posted from the state `s`.
  pub record IsBooked (s : Agent Books) : Type 0 where
    pub entry : JournalEntry
    pub derived_id : entry.entry_id ≡ ledger_entry_id uuid5 order
    pub owner : entry.tenant_id ≡ order.tenant_id
    pub amount : total_debits entry ≡ gross_minor order
    pub posted :
        PostingAgent.on_event services e s
        ≡ emit_new services "ledger" "ledger.posted"
            (pos 1)
            e.correlation_id
            (some order.tenant_id)
            (posted_payload (posted_result services e order.tenant_id entry))
            (record s { own = put entry.entry_id entry s.own })

  -- An event that carries, for the tenant of a completed order with a positive gross amount, the
  -- ledger entry that the order gave, makes the ledger enter it in the books with the gross amount
  -- as its total and announce it as posted, if nothing stands under its id yet.
  pub complete-IsBooked :
      (result : CompletionResult) (s : Agent Books)
      → complete uuid5 order ≡ ok result
      → nonempty order.tenant_id ≡ true
      → ltb_ℤ (pos 0) (gross_minor order) ≡ true
      → e.payload ≡ result.ledger_entry
      → e.tenant_id ≡ some order.tenant_id
      → has_key (ledger_entry_id uuid5 order) s.own ≡ false
      → IsBooked s
  complete-IsBooked result s c named positive payload tenant new =
      let (entry, parsed, id, owner, debits, credits, balances) =
        complete-balances uuid5 order result c named in
      record {
        entry = entry;
        derived_id = id;
        owner = owner;
        amount = debits;
        posted =
            on_event-Outcome services e order.tenant_id entry s
              (record { tenant = tenant; named = named; parsed = rw payload parsed })
            ∙ rw (balances, positive, id, new) refl;
      }
