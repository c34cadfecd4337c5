-- ===== src/Forge/Orders/Recognition.antt =====
-- A completed order gives a ledger entry that balances.
use cavi_erp.Prelude.{
  ◌≡◌, refl, inl, inr, String, true, Bool-cases, some, List, [], ◌∷◌, string_eq, if◌then◌else◌,
  nonempty, arith,
}
use cavi_erp.Prelude.Int.{ℤ, pos, eqb_ℤ, eqb_ℤ_iff, ltb_ℤ, int_laws}
use cavi_erp.Dict.{get}
use cavi_erp.Error.{ok}
use cavi_erp.Ledger.Entry.{
  JournalEntry, JournalLine, Direction, debit, credit, from_payload, total, total_debits,
  total_credits, is_balanced,
}
use cavi_erp.Forge.Orders.{
  WorkOrder, CompletionResult, completed, complete, move_to, may_follow, net_minor, tax_minor,
  gross_minor, ledger_entry_id, ledger_entry_of, sale_memo,
}

abbrev journal_line : String → Direction → ℤ → JournalLine
journal_line account direction amount = record {
  account = account;
  direction = direction;
  amount_minor = amount;
}

-- The lines of the ledger entry, as the ledger reads them.
abbrev sale_lines : WorkOrder → List JournalLine
sale_lines order =
    journal_line "1100-accounts-receivable" debit (gross_minor order)
    ∷ journal_line "4000-revenue" credit (net_minor order)
    ∷ (if eqb_ℤ (tax_minor order) (pos 0)
        then []
        else journal_line "2200-tax-payable" credit (tax_minor order) ∷ [])

module _ (uuid5 : String → String) where
  abbrev pub sale_entry : WorkOrder → JournalEntry
  sale_entry order = record {
    entry_id = ledger_entry_id uuid5 order;
    tenant_id = order.tenant_id;
    currency = order.currency;
    lines = sale_lines order;
    memo = some (sale_memo uuid5 order);
  }

  from_payload-ledger_entry_of :
      (order : WorkOrder)
      → nonempty order.tenant_id ≡ true
      → from_payload (ledger_entry_of uuid5 order) order.tenant_id ≡ ok (sale_entry order)
  unfolding from_payload ledger_entry_of get
  from_payload-ledger_entry_of order h = elim (Bool-cases (eqb_ℤ (tax_minor order) (pos 0))) [
    | inl z ↦ rw h (rw z refl)
    | inr z ↦ rw h (rw z refl)
  ]

  credits : (order : WorkOrder) → total credit (sale_lines order) ≡ gross_minor order
  unfolding gross_minor
  credits order = elim (Bool-cases (eqb_ℤ (tax_minor order) (pos 0))) [
    | inl z ↦ rw z (rw ((eqb_ℤ_iff (tax_minor order) (pos 0)).0 z) refl)
    | inr z ↦ rw z (omega int_laws)
  ]

  debits : (order : WorkOrder) → total debit (sale_lines order) ≡ gross_minor order
  debits order = elim (Bool-cases (eqb_ℤ (tax_minor order) (pos 0))) [
    | inl z ↦ rw z (omega int_laws)
    | inr z ↦ rw z (omega int_laws)
  ]

  completed_order : WorkOrder → WorkOrder
  completed_order order = record order { state = completed }

  complete-entry :
      (order : WorkOrder) (result : CompletionResult)
      → complete uuid5 order ≡ ok result
      → result.ledger_entry ≡ ledger_entry_of uuid5 (completed_order order)
  unfolding complete move_to completed_order
  complete-entry order result e = elim (Bool-cases (may_follow order.state completed)) [
    | inl yes' ↦ ground (arith, e, yes')
    | inr no' ↦ ground (arith, e, no')
  ]

  -- What a completed order of a named tenant gives the ledger is read as an entry under the id that
  -- is derived from the order; its debits and its credits are both the gross amount, net plus tax,
  -- so it balances exactly when that is positive.
  pub complete-balances :
      (order : WorkOrder) (result : CompletionResult)
      → complete uuid5 order ≡ ok result
      → nonempty order.tenant_id ≡ true
      → (entry : JournalEntry) × (from_payload result.ledger_entry order.tenant_id ≡ ok entry)
        × (entry.entry_id ≡ ledger_entry_id uuid5 order)
        × (entry.tenant_id ≡ order.tenant_id)
        × (total_debits entry ≡ gross_minor order)
        × (total_credits entry ≡ gross_minor order)
        × (is_balanced entry ≡ ltb_ℤ (pos 0) (gross_minor order))
  unfolding completed_order net_minor tax_minor gross_minor total_debits total_credits is_balanced
  complete-balances order result e named =
      let done : WorkOrder = completed_order order in
      let balanced : is_balanced (sale_entry done) ≡ ltb_ℤ (pos 0) (gross_minor done) =
        rw (credits done, debits done) (rw ((eqb_ℤ_iff (gross_minor done) _).1 refl) refl) in
      (
        sale_entry done,
        rw (complete-entry order result e) (from_payload-ledger_entry_of done named),
        refl,
        refl,
        debits done,
        credits done,
        balanced,
      )
