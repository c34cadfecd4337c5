-- ===== src/Forge/NetSuite/Reversals.antt =====
-- Which record a write reaches: the gaps in the addressing.
use cavi_erp.Prelude.{◌≡◌, ◌⊎◌, refl, String, none, some, string_eq}
use cavi_erp.Dict.{Dict, get}
use cavi_erp.Json.{Value}
use cavi_erp.Error.{Error, ok}
use cavi_erp.Exec.{Exec}
use cavi_erp.Exec.Triple.{Triple}
use cavi_erp.Services.{Services}
use cavi_erp.Agent.Event.{Event}
use cavi_erp.Agent.Frame.{Of}
use cavi_erp.Forge.Breaker.{CircuitBreaker}
use cavi_erp.Forge.Write.{WriteOperation, WriteStep, erp_address}
use cavi_erp.Forge.Write.Coordinator.{Erp, Desk, Office}
use cavi_erp.Forge.NetSuite.{Client, record_url, addressable}

-- An update whose target is the empty text passes the checks, and goes to the record that a create by
-- the same write would make: not to an existing record.
pub empty_target_misaddressed :
    (repr : Value → String) (c : Client) (op : WriteOperation)
    → op.operation ≡ "update"
    → op.target_external_id ≡ some ""
    → (addressable repr op op.target_external_id ≡ ok tt)
      × (record_url c op
          ≡ record_url c (record op { operation = "create"; target_external_id = none }))
unfolding addressable record_url erp_address
empty_target_misaddressed repr c op update empty = (rw (empty, update) refl, rw empty refl)

-- The pending writes are those of before, and writes that have no target.
abbrev Untargeted : Dict String WriteOperation → Desk → Type 0
Untargeted before d =
    (id : String) (op : WriteOperation)
    → get id d.pending ≡ some op
    → (get id before ≡ some op) ⊎ (op.target_external_id ≡ none)

module _ (services : Services) (erp : Erp) (factory : CircuitBreaker)
    (before : Dict String WriteOperation) where
  abbrev Kept : Office → Type 0
  Kept = Of (Untargeted before)

  -- A request whose proposal has no target makes a write that has none.
  abbrev Aimless : Exec Office WriteStep → Type 0
  Aimless m = Triple Kept m (λ step s. Kept s × (step.op.target_external_id ≡ none)) Kept
