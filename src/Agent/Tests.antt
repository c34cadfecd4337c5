-- ===== src/Agent/Tests.antt =====
-- Runs of the event envelope and of the event log.
use cavi_erp.Prelude.{◌≡◌, refl, List, [], ◌∷◌, ◌++◌, none, some, length, string_eq, String, All}
use cavi_erp.Prelude.Int.{pos}
use cavi_erp.Json.{str, int}
use cavi_erp.Error.{Error, ok, err}
use cavi_erp.Exec.{pure}
use cavi_erp.Services.{Services}
use cavi_erp.Agent.Registry.{validate}
use cavi_erp.Agent.Runtime.{Agent, fresh_runtime, emit, dispatch, dead_envelope}
use cavi_erp.Agent.Emission.{Concluded, emit-Concluded, dispatch-dead_envelope}
use cavi_erp.Fixtures.{services}
use cavi_erp.Audit.{verify_chain}
use cavi_erp.Agent.Event.{Event, to_envelope, from_envelope, from-to_envelope}
use cavi_erp.Agent.Store.{empty_store, as_uuid}
use cavi_erp.Agent.Store.Postgres.{empty_log, export, verify_export, record_row, record_rows}
use cavi_erp.Agent.Store.Postgres.Verified.{HasEvent, verify_export-record_rows}
use cavi_erp.Agent.Store.Chain.{record_all, entries, record_all-verifies}

abbrev price_event : Event
price_event = record {
  subject = "ticker.price";
  schema_version = pos 1;
  source = "ticker";
  payload = ("base", str "EUR") ∷ ("tick", int (pos 7)) ∷ [];
  id = "e1";
  correlation_id = some "c1";
  tenant_id = none;
}

from-to_envelope_example :
    from_envelope (to_envelope price_event ++ ("error", str "late") ∷ []) ≡ ok price_event
from-to_envelope_example = from-to_envelope price_event (("error", str "late") ∷ [])

abbrev replayed : List Event
replayed = price_event ∷ record price_event { id = "e2" } ∷ price_event ∷ []

record_all-verifies_example :
    let s = record_all services replayed empty_store in
    (verify_chain services (entries services s.events s.chain_hashes) ≡ [])
    × (length s.events ≡ length s.chain_hashes)
record_all-verifies_example = record_all-verifies services replayed

abbrev stored : List (String × Event)
stored =
    ("09:00", price_event)
    ∷ ("09:01", record price_event { id = "e2" })
    ∷ ("09:02", price_event)
    ∷ []

one_row_each : length (record_rows services stored empty_log).rows ≡ 2
unfolding record_rows record_row as_uuid
one_row_each = refl

verify_export-record_rows_example :
    let log = record_rows services stored empty_log in
    (verify_export services (export log.rows) ≡ []) × All (HasEvent services log) stored
unfolding as_uuid
verify_export-record_rows_example =
    verify_export-record_rows services stored (refl, (refl, (refl, tt)))

abbrev idle : Agent (Unit {0})
idle = record { own = tt; runtime = fresh_runtime }

emit-Concluded_example :
    Concluded services "ticker" price_event idle (emit services "ticker" price_event idle)
emit-Concluded_example = emit-Concluded services "ticker" price_event idle

-- A registry that refuses every payload.
abbrev strict : Services
strict = record services { violation = λ schema payload. some "refused" }

refused :
    validate strict price_event.subject price_event.schema_version price_event.payload
    ≡ err (Error.validation_error "refused")
unfolding validate
refused = refl

dispatch-dead_envelope_example :
    ((dispatch strict "beacon" (λ e. pure tt) price_event idle).1.bus
      ≡ [] ++ ("deadletter.ticker.price", dead_envelope price_event "refused") ∷ [])
    × ((dispatch strict "beacon" (λ e. pure tt) price_event idle).1.own ≡ tt)
unfolding dead_envelope
dispatch-dead_envelope_example =
    dispatch-dead_envelope strict "beacon" (λ e. pure tt) price_event price_event
      (Error.validation_error "refused") idle refused
      (from-to_envelope price_event (("error", str "refused") ∷ []))
