-- ===== src/Beacon/Reports/Windows.antt =====
-- Each observed subject is in one report.
use mathlib.Core.List.{append-nil, append_assoc}
use cavi_erp.Prelude.{
  ◌≡◌, ◌⊎◌, refl, sym, ap, ◌∙◌, inl, inr, suc, String, Bool, true, false, Bool-cases, none, List,
  [], ◌∷◌, ◌++◌, ◌==◌, string_eq, if◌then◌else◌,
}
use cavi_erp.Prelude.Int.{pos}
use cavi_erp.Json.{Items, arr}
use cavi_erp.Json.Casts.{list_of}
use cavi_erp.Error.{Error, Result, ok, err, Result-cases}
use cavi_erp.Exec.{◌>>=◌}
use cavi_erp.Services.{Services}
use cavi_erp.Agent.Event.{Event}
use cavi_erp.Agent.Runtime.{Agent, emit_new, now_iso}
use cavi_erp.Agent.Frame.{Keeps-emit_new}
use cavi_erp.Exec.Triple.{Keeps-state}
use cavi_erp.Beacon.Reports.{Request, read_request, report_payload, generate, emit_report, on_event}

abbrev pub Watch : Type 0
Watch = Agent (List String)

module _ (services : Services) (defaults : List String) where
  -- The agent after one reading of the clock.
  abbrev pub ticked : Watch → Watch
  ticked agent = record agent { runtime = record agent.runtime { ticks = suc agent.runtime.ticks } }

  -- The emission of the report over what was observed.
  abbrev pub announce : Event → Watch → Request → Items → Result (Unit {0}) × Watch
  announce e agent request targets =
      emit_new services "beacon" "beacon.report.generated" (pos 1) e.correlation_id none
        (report_payload request agent.own (services.now_iso agent.runtime.ticks) (arr targets))
        (ticked agent)

  abbrev pub Refused : Event → Watch → Type 0
  Refused e agent =
      (x : Error) × (after : Watch) × (emit_report services defaults e agent ≡ (err x, after))
      × (after.own ≡ agent.own)

  abbrev pub Reported : Event → Watch → Type 0
  Reported e agent =
      (request : Request) × (targets : Items) × (after : Watch) × (read_request defaults e.payload
        ≡ ok request)
      × (announce e agent request targets ≡ (ok tt, after))
      × (emit_report services defaults e agent ≡ (ok tt, record after { own = [] }))

  -- A request for a report either raises an error, and the observations stay, or it emits one report,
  -- whose numbers are those of the observations, and then none of them waits any more.
  pub emit_report-cases : (e : Event) (agent : Watch) → Refused e agent ⊎ Reported e agent
  unfolding emit_report generate now_iso ◌>>=◌
  emit_report-cases e agent = elim (Result-cases (read_request defaults e.payload)) [
    | inl (x, bad) ↦ inl (x, agent, rw bad refl, refl)
    | inr (request, good) ↦ elim (Result-cases (list_of request.delivery_targets)) [
      | inl (x, bad) ↦ inl (x, ticked agent, rw (good, bad) refl, refl)
      | inr (targets, list) ↦
          let outcome = announce e agent request targets in
          let Unchanged : List String → Type 0 = λ own. own ≡ agent.own in
          let kept : outcome.1.own ≡ agent.own =
            Keeps-state _ (ticked agent)
              (Keeps-emit_new services Unchanged "beacon" "beacon.report.generated" (pos 1)
                e.correlation_id none _)
              refl in
          elim (Result-cases outcome.0) [
            | inl (x, raised) ↦ inl (x, outcome.1, rw (good, list, raised) refl, kept)
            | inr (_, sent) ↦ inr (
              request,
              targets,
              outcome.1,
              good,
              ap (λ r. (r, outcome.1)) sent,
              rw (good, list, sent) refl,
            )
          ]
    ]
  ]

  abbrev is_request : Event → Bool
  is_request e = e.subject == "beacon.report.request"

  -- The subjects that are observed, of the events that are no requests.
  abbrev pub observed : List Event → List String
  observed [] = []
  observed (e ∷ es) = let rest = observed es in if is_request e then rest else e.subject ∷ rest

  abbrev finished : Result (Unit {0}) → Bool
  finished (ok _) = true
  finished (err _) = false

  -- The agent handles events one after the other, whatever they raise: the windows of the requests
  -- that were answered with a report, joined, and the agent at the end.
  unfoldable pub windows : List Event → Watch → List String × Watch
  windows [] agent = ([], agent)
  windows (e ∷ es) agent =
      let (outcome, next) = on_event services defaults e agent in
      let (later, last) = windows es next in
      (
        if is_request e then (if finished outcome then agent.own ++ later else later) else later,
        last,
      )

  -- No observation is lost and none is reported twice: the subjects that were reported, in the order
  -- of the reports, and those that wait for the next report are those that were waiting at first,
  -- followed by the subjects of the events that are no requests. It holds also where a request is
  -- refused or its report is not accepted by the schema.
  pub windows-observed :
      (es : List Event) (agent : Watch)
      → (windows es agent).0 ++ (windows es agent).1.own ≡ agent.own ++ observed es
  unfolding windows on_event
  windows-observed [] agent = sym (append-nil agent.own)
  windows-observed (e ∷ es) agent = elim (Bool-cases (is_request e)) [
    | inr other ↦ rw other (
        windows-observed es (record agent { own = agent.own ++ e.subject ∷ [] })
        ∙ append_assoc agent.own (e.subject ∷ []) (observed es))
    | inl request ↦ elim (emit_report-cases e agent) [
      | inl (x, after, refused, same) ↦
          rw (request, refused) (windows-observed es after ∙ ap (λ l. l ++ observed es) same)
      | inr (_, _, after, _, _, sent) ↦
          let fresh : Watch = record after { own = [] } in
          rw (request, sent)
            (append_assoc agent.own (windows es fresh).0 (windows es fresh).1.own
              ∙ ap (λ l. agent.own ++ l) (windows-observed es fresh))
    ]
  ]
