-- ===== src/Forge/Orders.antt =====
-- agents/forge/forge.py: work orders and the ledger entry that a completed one gives.
pub mod Recognition
pub mod Booked
use cavi_erp.Prelude.{
  ℕ, ◌≡◌, String, Bool, true, false, not, Option, none, some, List, [], ◌∷◌, ◌++◌, ◌<>◌, ◌==◌,
  string_eq, if◌then◌else◌,
}
use cavi_erp.Prelude.Int.{ℤ, pos, ◌+ℤ◌, ◌*ℤ◌, floordiv, eqb_ℤ, show_ℤ}
use cavi_erp.Dict.{get}
use cavi_erp.Json.{Value, Object, str, int, obj, arr, of_dict, of_list}
use cavi_erp.Error.{Error, Result, ok, err, ◌>>=◌}
use cavi_erp.Agent.Event.{item, text, whole}

pub data WorkOrderState : Type 0 where
  created in_progress completed cancelled : WorkOrderState

abbrev pub order_state_value : WorkOrderState → String
order_state_value created = "created"
order_state_value in_progress = "in_progress"
order_state_value completed = "completed"
order_state_value cancelled = "cancelled"

-- `_ALLOWED`
unfoldable pub may_follow : WorkOrderState → WorkOrderState → Bool
may_follow created in_progress = true
may_follow created cancelled = true
may_follow in_progress completed = true
may_follow in_progress cancelled = true
may_follow _ _ = false

pub record WorkOrder : Type 0 where
  pub work_order_id : String
  pub tenant_id : String
  pub sku : String
  pub quantity : ℤ
  pub unit_price_minor : ℤ
  pub currency : String
  pub tax_rate_bps : ℤ
  pub state : WorkOrderState

unfoldable pub net_minor : WorkOrder → ℤ
net_minor order = order.quantity *ℤ order.unit_price_minor

unfoldable pub tax_minor : WorkOrder → ℤ
tax_minor order = floordiv (net_minor order *ℤ order.tax_rate_bps) 10000

unfoldable pub gross_minor : WorkOrder → ℤ
gross_minor order = net_minor order +ℤ tax_minor order

unfoldable pub move_to : WorkOrderState → WorkOrder → Result WorkOrder
unfolding may_follow
move_to new_state order =
    if may_follow order.state new_state
    then ok (record order { state = new_state })
    else err (
        Error.invalid_transition (
          "work order "
          <> order.work_order_id
          <> ": "
          <> order_state_value order.state
          <> " -> "
          <> order_state_value new_state))

-- `Forge.start`
unfoldable pub start : WorkOrder → Result WorkOrder
unfolding move_to
start order = move_to in_progress order

-- `Forge.cancel`
unfoldable pub cancel : WorkOrder → Result WorkOrder
unfolding move_to
cancel order = move_to cancelled order

-- `WorkOrderState(text)`
unfoldable pub state_of : String → Result WorkOrderState
state_of s =
    if s == "created"
    then ok created
    else if s == "in_progress"
    then ok in_progress
    else if s == "completed"
    then ok completed
    else if s == "cancelled"
    then ok cancelled
    else err (Error.value_error (s <> " is not a valid WorkOrderState"))

abbrev or_value : Option Value → Value → Value
or_value none d = d
or_value (some v) d = v

-- `WorkOrder.from_payload`
unfoldable pub order_of : Object → Result WorkOrder
unfolding item text whole state_of
order_of payload = do
  work_order_id ← (item "work_order_id" payload >>= text)
  tenant_id ← (item "tenant_id" payload >>= text)
  sku ← (item "sku" payload >>= text)
  quantity ← (item "quantity" payload >>= whole)
  unit_price_minor ← (item "unit_price_minor" payload >>= whole)
  currency ← (item "currency" payload >>= text)
  tax_rate_bps ← whole (or_value (get "tax_rate_bps" payload) (int (pos 0)))
  state ← (text (or_value (get "state" payload) (str "created")) >>= state_of)
  ok (record {
    work_order_id = work_order_id;
    tenant_id = tenant_id;
    sku = sku;
    quantity = quantity;
    unit_price_minor = unit_price_minor;
    currency = currency;
    tax_rate_bps = tax_rate_bps;
    state = state;
  })

abbrev account_receivable : String
account_receivable = "1100-accounts-receivable"

abbrev account_revenue : String
account_revenue = "4000-revenue"

abbrev account_tax_payable : String
account_tax_payable = "2200-tax-payable"

abbrev line : String → String → ℤ → Value
line account direction amount = obj (
    of_dict
      (("account", str account) ∷ ("direction", str direction) ∷ ("amount_minor", int amount) ∷ []))

unfoldable pub revenue_lines : WorkOrder → List Value
revenue_lines order =
    let tax_line =
      if not (eqb_ℤ (tax_minor order) (pos 0))
      then line account_tax_payable "credit" (tax_minor order) ∷ []
      else [] in
    line account_receivable "debit" (gross_minor order)
    ∷ line account_revenue "credit" (net_minor order)
    ∷ tax_line

pub record CompletionResult : Type 0 where
  pub order : WorkOrder
  pub completed_event : Object
  pub ledger_entry : Object

unfoldable pub completed_event_of : WorkOrder → Object
completed_event_of order =
    ("work_order_id", str order.work_order_id)
    ∷ ("tenant_id", str order.tenant_id)
    ∷ ("sku", str order.sku)
    ∷ ("quantity", int order.quantity)
    ∷ ("currency", str order.currency)
    ∷ ("net_minor", int (net_minor order))
    ∷ ("tax_minor", int (tax_minor order))
    ∷ ("gross_minor", int (gross_minor order))
    ∷ []

-- `uuid5` is `str(uuid.uuid5(_ENTRY_NAMESPACE, name))`.
module _ (uuid5 : String → String) where
  abbrev pub ledger_entry_id : WorkOrder → String
  ledger_entry_id order = uuid5 (order.tenant_id <> ":" <> order.work_order_id)

  abbrev pub sale_memo : WorkOrder → String
  sale_memo order =
      "sale " <> order.sku <> " x" <> show_ℤ order.quantity <> " (wo " <> order.work_order_id <> ")"

  unfoldable pub ledger_entry_of : WorkOrder → Object
  unfolding revenue_lines
  ledger_entry_of order =
      ("entry_id", str (ledger_entry_id order))
      ∷ ("currency", str order.currency)
      ∷ ("memo", str (sale_memo order))
      ∷ ("lines", arr (of_list (revenue_lines order)))
      ∷ []

  -- `Forge.complete`
  unfoldable pub complete : WorkOrder → Result CompletionResult
  unfolding move_to
  complete order = do
    done ← move_to completed order
    ok (record {
      order = done;
      completed_event = completed_event_of done;
      ledger_entry = ledger_entry_of done;
    })
