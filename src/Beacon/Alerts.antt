-- ===== src/Beacon/Alerts.antt =====
-- agents/beacon/beacon.py: the classification of an event and its delivery, and the handler of
-- agents/beacon/agent.py.

use cavi_erp.Prelude.{
  zero, suc, ℕ, ◌-◌, String, Bool, true, false, Option, none, some, List, [], ◌∷◌, ◌++◌, ◌<>◌, ◌==◌,
  string_eq, if◌then◌else◌, ltb, starts_with, contains,
}
use cavi_erp.Prelude.Int.{show_ℤ}
use cavi_erp.Dict.{Dict, get, put}
use cavi_erp.Json.{Value, Object, null, bool, int, str, arr, obj, truthy}
use cavi_erp.Exec.{Exec, ◌>>=◌}
use cavi_erp.Services.{Services}
use cavi_erp.Agent.Event.{Event}
use cavi_erp.Agent.Runtime.{Agent, monotonic, set_own}

pub data Severity : Type 0 where
  info warning error critical : Severity

abbrev pub severity_name : Severity → String
severity_name info = "INFO"
severity_name warning = "WARNING"
severity_name error = "ERROR"
severity_name critical = "CRITICAL"

-- The text without its first eleven characters, `subject[len("deadletter."):]`.
drop : ℕ → String → String
drop zero s = s
drop (suc n) String.[] = ""
drop (suc n) (String.◌∷◌ c s) = drop n s

-- `severity_for`
unfoldable pub severity_for : String → Severity
unfolding drop
severity_for subject =
    if starts_with subject "deadletter."
    then (if starts_with (drop 11 subject) "ledger." then critical else error)
    else if subject == "ledger.rejected"
    then warning
    else if subject == "vault.secret.denied"
    then warning
    else if subject == "ledger.drift.detected"
    then warning
    else info

pub record Alert : Type 0 where
  pub severity : Severity
  pub title : String
  pub subject : String
  pub body : String
  pub dedup_key : String
  pub correlation_id : Option String

abbrev or_later : Option Value → Value → Value
or_later none later = later
or_later (some v) later = if truthy v then v else later

-- `payload.get("entry_id") or payload.get("work_order_id") or …`
unfoldable pub identity : Object → Value
identity payload = or_later (get "entry_id" payload) (
    or_later (get "work_order_id" payload)
      (or_later (get "run_id" payload) (or_later (get "id" payload) (str ""))))

-- How the platform shows values: `str(value)` of a list or an object, and the first 500 characters of
-- `json.dumps(payload, default=str)`.
pub record Display : Type 0 where
  pub repr : Value → String
  pub body : Object → String

abbrev shown : Display → Value → String
shown display null = "None"
shown display (bool true) = "True"
shown display (bool false) = "False"
shown display (int n) = show_ℤ n
shown display (str s) = s
shown display (arr xs) = display.repr (arr xs)
shown display (obj fs) = display.repr (obj fs)

-- `classify`
unfoldable pub classify : Display → String → Object → Option String → Alert
unfolding severity_for identity
classify display subject payload correlation_id = record {
  severity = severity_for subject;
  title = severity_name (severity_for subject) <> ": " <> subject;
  subject = subject;
  body = display.body payload;
  dedup_key = subject <> ":" <> shown display (identity payload);
  correlation_id = correlation_id;
}

-- `DEFAULT_ROUTES`
unfoldable pub routes : Severity → List String
routes info = "log" ∷ []
routes warning = "log" ∷ []
routes error = "log" ∷ "hermes" ∷ []
routes critical = "log" ∷ "hermes" ∷ []

-- The state of a `Beacon`: what its dedup store knows, and what its channels were given to send.
pub record Desk : Type 0 where
  pub last_sent : Dict String ℕ
  pub delivered : List (String × Alert)

abbrev recent : Option ℕ → ℕ → ℕ → Bool
recent none window now = false
recent (some last) window now = ltb (now - last) window

-- `InMemoryDedupStore.is_duplicate`
unfoldable pub is_duplicate : String → ℕ → ℕ → Dict String ℕ → Bool × Dict String ℕ
is_duplicate key window now last_sent =
    if recent (get key last_sent) window now
    then (true, last_sent)
    else (false, put key now last_sent)

abbrev deliver : List String → List String → Alert → List (String × Alert)
deliver channels [] alert = []
deliver channels (name ∷ names) alert =
    let rest = deliver channels names alert in
    if contains name channels then (name, alert) ∷ rest else rest

-- `_dispatch`, over the configured channels.
unfoldable pub send_alert : List String → Alert → Desk → Desk
unfolding routes
send_alert channels alert desk = record desk {
  delivered = desk.delivered ++ deliver channels (routes alert.severity) alert;
}

-- `DEFAULT_DEDUP_WINDOW_SECONDS`
abbrev pub dedup_window : ℕ
dedup_window = 300

module _ (display : Display) (channels : List String) where
  -- `notify`, once the dedup store has answered.
  unfoldable pub on_verdict : Alert → Bool × Dict String ℕ → Desk → Option Alert × Desk
  unfolding send_alert
  on_verdict alert (true, last_sent) desk = (none, record desk { last_sent = last_sent })
  on_verdict alert (false, last_sent) desk =
      (some alert, send_alert channels alert (record desk { last_sent = last_sent }))

  -- `Beacon.notify` at the clock reading `now`.
  unfoldable pub notify : String → Object → Option String → ℕ → Desk → Option Alert × Desk
  unfolding on_verdict
  notify subject payload correlation_id now desk =
      let alert = classify display subject payload correlation_id in
      on_verdict alert (is_duplicate alert.dedup_key dedup_window now desk.last_sent) desk

  -- `BeaconAgent.handle`
  unfoldable pub on_event : Services → Event → Exec (Agent Desk) (Unit {0})
  on_event services e = do
    now ← monotonic services
    set_own (λ desk. (notify e.subject e.payload e.correlation_id now desk).1)
