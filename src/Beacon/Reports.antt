-- ===== src/Beacon/Reports.antt =====
-- agents/beacon/report.py and report_agent.py: the tally of observed subjects and the report that it
-- is rolled up into.
pub mod Counts
pub mod Order
pub mod Windows
use cavi_erp.Prelude.{
  ℕ, ◌+◌, String, Bool, true, false, Option, none, some, List, [], ◌∷◌, ◌++◌, ◌==◌, string_eq,
  if◌then◌else◌, length, starts_with,
}
use cavi_erp.Prelude.Int.{pos}
use cavi_erp.Dict.{Dict, get, put, values}
use cavi_erp.Json.{Value, Object, str, int, arr, obj, of_dict, of_list, truthy}
use cavi_erp.Json.Casts.{list_of}
use cavi_erp.Error
use cavi_erp.Error.{Error, Result, ok, err}
use cavi_erp.Exec.{Exec, pure, lift, gets, ◌>>=◌, ◌>>◌}
use cavi_erp.Services.{Services}
use cavi_erp.Agent.Event.{Event, item}
use cavi_erp.Agent.Runtime.{Agent, now_iso, emit_new, set_own}
use cavi_erp.Beacon.Alerts.{Severity, info, warning, error, critical, severity_name, severity_for}

-- A `Counter`, whose missing keys count zero.
abbrev pub Counter : Type 0
Counter = Dict String ℕ

abbrev or_zero : Option ℕ → ℕ
or_zero none = 0
or_zero (some n) = n

unfoldable pub count_of : String → Counter → ℕ
count_of key counts = or_zero (get key counts)

-- `counts[key] += n`
unfoldable pub add_count : String → ℕ → Counter → Counter
unfolding count_of
add_count key n counts = put key (count_of key counts + n) counts

-- `Counter(keys)`, beside what was counted before.
unfoldable pub tally : List String → Counter → Counter
unfolding add_count
tally [] counts = counts
tally (key ∷ keys) counts = tally keys (add_count key 1 counts)

-- `sum(counts.values())`
unfoldable pub total : Counter → ℕ
total [] = 0
total ((_, n) ∷ counts) = n + total counts

abbrev pub is_dead_letter : String → Bool
is_dead_letter subject = starts_with subject "deadletter."

-- The loop over the counted subjects: the count of each severity's name, and of the dead letters.
unfoldable pub by_severity : Counter → Counter → Counter
unfolding add_count
by_severity [] buckets = buckets
by_severity ((subject, n) ∷ counts) buckets =
    by_severity counts (add_count (severity_name (severity_for subject)) n buckets)

unfoldable pub dead_letters : Counter → ℕ
dead_letters [] = 0
dead_letters ((subject, n) ∷ counts) =
    let rest = dead_letters counts in if is_dead_letter subject then n + rest else rest

-- `for sev in Severity`
abbrev pub severities : List Severity
severities = info ∷ warning ∷ error ∷ critical ∷ []

abbrev pub number : ℕ → Value
number n = int (pos n)

unfoldable pub bucket_fields : Counter → List Severity → Object
bucket_fields buckets [] = []
bucket_fields buckets (s ∷ ss) =
    (severity_name s, number (count_of (severity_name s) buckets)) ∷ bucket_fields buckets ss

abbrev pub kpi_map : ℕ → ℕ → ℕ → Object → Object
kpi_map events distinct dead buckets =
    ("events_total", number events)
    ∷ ("distinct_subjects", number distinct)
    ∷ ("dead_letters", number dead)
    ∷ ("by_severity", obj (of_dict buckets))
    ∷ []

-- `summarize_kpis`
unfoldable pub summarize_kpis : List String → Object
unfolding tally total by_severity dead_letters bucket_fields
summarize_kpis observed_subjects =
    let counts = tally observed_subjects [] in
    kpi_map (total counts) (length counts) (dead_letters counts)
      (bucket_fields (by_severity counts []) severities)

-- What a request says of its report.
pub record Request : Type 0 where
  pub tenant_id : Value
  pub report_type : Value
  pub period_start : Value
  pub period_end : Value
  pub delivery_targets : Value

abbrev pub texts : List String → List Value
texts [] = []
texts (t ∷ ts) = str t ∷ texts ts

-- `req.get("delivery_targets") or self._default_targets`
abbrev pub targets_or : List String → Option Value → Value
targets_or defaults none = arr (of_list (texts defaults))
targets_or defaults (some v) = if truthy v then v else arr (of_list (texts defaults))

-- The fields of the request, in the order in which `_emit_report` reads them.
unfoldable pub read_request : List String → Object → Result Request
read_request defaults req = Error.◌>>=◌ (item "tenant_id" req) λ tenant_id.
    Error.◌>>=◌ (item "report_type" req) λ report_type.
      Error.◌>>=◌ (item "period_start" req) λ period_start.
        Error.◌>>=◌ (item "period_end" req) λ period_end. ok (record {
          tenant_id = tenant_id;
          report_type = report_type;
          period_start = period_start;
          period_end = period_end;
          delivery_targets = targets_or defaults (get "delivery_targets" req);
        })

unfoldable pub report_payload : Request → List String → String → Value → Object
report_payload request observed_subjects generated_at delivery_targets =
    ("tenant_id", request.tenant_id)
    ∷ ("report_type", request.report_type)
    ∷ ("kpis", obj (of_dict (summarize_kpis observed_subjects)))
    ∷ ("period_start", request.period_start)
    ∷ ("period_end", request.period_end)
    ∷ ("generated_at", str generated_at)
    ∷ ("delivery_targets", delivery_targets)
    ∷ []

module _ (services : Services) (default_targets : List String) where
  -- `ReportBuilder.generate`
  unfoldable pub generate : Request → List String → Exec (Agent (List String)) Object
  unfolding report_payload
  generate request observed_subjects = do
    generated_at ← now_iso services
    delivery_targets ← lift (list_of request.delivery_targets)
    pure (report_payload request observed_subjects generated_at (arr delivery_targets))

  -- `_emit_report`, over the subjects observed since the last report.
  unfoldable pub emit_report : Event → Exec (Agent (List String)) (Unit {0})
  unfolding generate read_request
  emit_report e = do
    observed ← gets (λ agent. agent.own)
    request ← lift (read_request default_targets e.payload)
    report ← generate request observed
    emit_new services "beacon" "beacon.report.generated" (pos 1) e.correlation_id none report
    set_own (λ _. [])

  -- `BeaconReportAgent.handle`
  unfoldable pub on_event : Event → Exec (Agent (List String)) (Unit {0})
  unfolding emit_report
  on_event e =
      if e.subject == "beacon.report.request"
      then emit_report e
      else set_own (λ observed. observed ++ e.subject ∷ [])
