-- ===== src/Forge/Tests/OrderTests.antt =====
-- Runs of work orders.
use cavi_erp.Prelude.{◌≡◌, refl, String, ◌<>◌, none, some, true, false, [], string_eq}
use cavi_erp.Prelude.Int.{pos, ltb_ℤ, ◌*ℤ◌, ◌+ℤ◌, floordiv}
use cavi_erp.Dict.{has_key}
use cavi_erp.Error.{ok}
use cavi_erp.Fixtures.{services}
use cavi_erp.Agent.Event.{Event}
use cavi_erp.Agent.Runtime.{Agent, fresh_runtime}
use cavi_erp.Ledger.Entry.{JournalEntry, from_payload, total_debits, total_credits, is_balanced}
use cavi_erp.Ledger.Store.{Books}
use cavi_erp.Forge.Orders.{
  WorkOrder, CompletionResult, in_progress, completed, complete, gross_minor, net_minor, tax_minor,
  ledger_entry_id, ledger_entry_of, completed_event_of,
}
use cavi_erp.Forge.Orders.Recognition.{complete-balances}
use cavi_erp.Forge.Orders.Booked.{IsBooked, complete-IsBooked}

abbrev uuid5 : String → String
uuid5 name = "uuid:" <> name

-- Three pieces at 19.99 with 8.25% tax.
abbrev order : WorkOrder
order = record {
  work_order_id = "wo1";
  tenant_id = "t1";
  sku = "bolt";
  quantity = pos 3;
  unit_price_minor = pos 1999;
  currency = "EUR";
  tax_rate_bps = pos 825;
  state = in_progress;
}

abbrev done : WorkOrder
done = record order { state = completed }

abbrev result : CompletionResult
result = record {
  order = done;
  completed_event = completed_event_of done;
  ledger_entry = ledger_entry_of uuid5 done;
}

order_completes : complete uuid5 order ≡ ok result
unfolding complete
order_completes = refl

order_amounts : (net_minor order ≡ pos 5997) × (tax_minor order ≡ pos 494)
unfolding net_minor tax_minor ◌*ℤ◌ floordiv
order_amounts = (refl, refl)

complete-balances_example :
    (entry : JournalEntry) × (from_payload result.ledger_entry "t1" ≡ ok entry)
    × (entry.entry_id ≡ ledger_entry_id uuid5 order)
    × (entry.tenant_id ≡ "t1")
    × (total_debits entry ≡ gross_minor order)
    × (total_credits entry ≡ gross_minor order)
    × (is_balanced entry ≡ ltb_ℤ (pos 0) (gross_minor order))
complete-balances_example = complete-balances uuid5 order result order_completes refl

abbrev entry_event : Event
entry_event = record {
  subject = "ledger.entry";
  schema_version = pos 1;
  source = "forge";
  payload = result.ledger_entry;
  id = "ev1";
  correlation_id = none;
  tenant_id = some "t1";
}

abbrev empty : Agent Books
empty = record { own = []; runtime = fresh_runtime }

positive : ltb_ℤ (pos 0) (gross_minor order) ≡ true
unfolding gross_minor net_minor tax_minor ◌*ℤ◌ ◌+ℤ◌ floordiv
positive = refl

nothing_yet : has_key (ledger_entry_id uuid5 order) empty.own ≡ false
unfolding cavi_erp.Dict.get
nothing_yet = refl

complete-IsBooked_example : IsBooked services uuid5 entry_event order empty
complete-IsBooked_example =
    complete-IsBooked services uuid5 entry_event order result empty order_completes refl positive
      refl refl nothing_yet
