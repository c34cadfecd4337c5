-- ===== src/Beacon/ReportTests.antt =====
-- Runs of the reporting agent, with a schema registry that accepts everything.
use cavi_erp.Prelude.{◌≡◌, ◌⊎◌, refl, String, none, List, [], ◌∷◌, ◌++◌, string_eq}
use cavi_erp.Prelude.Int.{pos}
use cavi_erp.Dict.{get, put}
use cavi_erp.Json.{Object, str, int, obj, of_dict}
use cavi_erp.Json.Casts.{list_of}
use cavi_erp.Fixtures.{services}
use cavi_erp.Exec.{◌>>=◌}
use cavi_erp.Agent.Event.{Event, item}
use cavi_erp.Agent.Registry.{validate}
use cavi_erp.Beacon.Alerts.{severity_for}
use cavi_erp.Agent.Runtime.{fresh_runtime, now_iso, emit_new, new_event, emit}
use cavi_erp.Beacon.Reports.{summarize_kpis, on_event}
use cavi_erp.Beacon.Reports.Counts.{plain_kpis, summarize_kpis-plain}
use cavi_erp.Beacon.Reports.Windows.{
  Watch, Refused, Reported, emit_report-cases, windows, windows-observed,
}

abbrev subjects : List String
subjects = "ledger.posted" ∷ "deadletter.ledger.entry" ∷ "ledger.posted" ∷ []

counts :
    summarize_kpis subjects
    ≡ ("events_total", int (pos 3))
      ∷ ("distinct_subjects", int (pos 2))
      ∷ ("dead_letters", int (pos 1))
      ∷ (
        "by_severity",
        obj (
            of_dict (
              ("INFO", int (pos 2))
              ∷ ("WARNING", int (pos 0))
              ∷ ("ERROR", int (pos 0))
              ∷ ("CRITICAL", int (pos 1))
              ∷ [])),
      )
      ∷ []
unfolding summarize_kpis get put severity_for
counts = refl

summarize_kpis-plain_example : summarize_kpis subjects ≡ plain_kpis subjects
summarize_kpis-plain_example = summarize_kpis-plain subjects

abbrev event : String → Object → Event
event subject payload = record {
  subject = subject;
  schema_version = pos 1;
  source = "ledger";
  payload = payload;
  id = "e";
  correlation_id = none;
  tenant_id = none;
}

abbrev request : Event
request = event "beacon.report.request" (
    ("tenant_id", str "t")
    ∷ ("report_type", str "daily")
    ∷ ("period_start", str "a")
    ∷ ("period_end", str "b")
    ∷ [])

abbrev watch : Watch
watch = record { own = "ledger.posted" ∷ []; runtime = fresh_runtime }

abbrev events : List Event
events = event "forge.completed" [] ∷ request ∷ event "ledger.rejected" [] ∷ []

reported_once :
    (windows services ("ops" ∷ []) events watch).0 ≡ "ledger.posted" ∷ "forge.completed" ∷ []
unfolding windows on_event ◌>>=◌ item get now_iso list_of emit_new new_event emit validate
reported_once = refl

windows-observed_example :
    (windows services ("ops" ∷ []) events watch).0
      ++ (windows services ("ops" ∷ []) events watch).1.own
    ≡ "ledger.posted" ∷ "forge.completed" ∷ "ledger.rejected" ∷ []
windows-observed_example = windows-observed services ("ops" ∷ []) events watch

emit_report-cases_example :
    Refused services ("ops" ∷ []) request watch ⊎ Reported services ("ops" ∷ []) request watch
emit_report-cases_example = emit_report-cases services ("ops" ∷ []) request watch
