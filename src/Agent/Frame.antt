-- ===== src/Agent/Frame.antt =====
-- What the methods of the runtime leave alone: the fields of the agent's own class.
use cavi_erp.Prelude.{ℕ, String, Option, List, [], ◌∷◌, All}
use cavi_erp.Prelude.Int.{ℤ}
use cavi_erp.Json.{Object}
use cavi_erp.Error.{Result, ok, err, message}
use cavi_erp.Exec.{Exec, ◌>>◌}
use cavi_erp.Exec.Triple.{Keeps, keeps_rules, Keeps-bind}
use cavi_erp.Services.{Services}
use cavi_erp.Agent.Event.{Event}
use cavi_erp.Agent.Registry.{validate}
use cavi_erp.Agent.Runtime.{
  Agent, set_own, count, publish, mint, now_iso, monotonic, new_event, emit, emit_new, dead_letter,
  record_in_log, dispatch, run,
}

module _ {Own : Type 0} (P : Own → Type 0) where
  -- A property of the agent's own fields.
  abbrev pub Of : Agent Own → Type 0
  Of s = P s.own

  pub Keeps-count :
      (name : String) (n : ℕ) (labels : List (String × String)) → Keeps Of (count name n labels)
  unfolding count
  Keeps-count name n labels = record { at = λ s h. h }

  pub Keeps-publish : (channel : String) (body : Object) → Keeps Of (publish channel body)
  unfolding publish
  Keeps-publish channel body = record { at = λ s h. h }

  pub Keeps-set_own : (f : Own → Own) → ((own : Own) → P own → P (f own)) → Keeps Of (set_own f)
  Keeps-set_own f keep = record { at = λ s h. keep s.own h }

module _ (services : Services) {Own : Type 0} (P : Own → Type 0) where
  pub Keeps-mint : Keeps (Of P) (mint services)
  unfolding mint
  Keeps-mint = record { at = λ s h. h }

  pub Keeps-now_iso : Keeps (Of P) (now_iso services)
  unfolding now_iso
  Keeps-now_iso = record { at = λ s h. h }

  pub Keeps-monotonic : Keeps (Of P) (monotonic services)
  unfolding monotonic
  Keeps-monotonic = record { at = λ s h. h }

  pub Keeps-new_event :
      (subject : String) (version : ℤ) (source : String) (correlation_id tenant_id : Option String)
      (payload : Object)
      → Keeps (Of P) (new_event services subject version source correlation_id tenant_id payload)
  unfolding new_event
  Keeps-new_event subject version source correlation_id tenant_id payload =
      search (keeps_rules, Keeps-mint)

  Keeps-record_in_log : (e : Event) → Keeps (Of P) (record_in_log services e)
  unfolding record_in_log
  Keeps-record_in_log e = record { at = λ s h. h }

  pub Keeps-emit : (name : String) (e : Event) → Keeps (Of P) (emit services name e)
  unfolding emit
  Keeps-emit name e = search (keeps_rules, Keeps-record_in_log, Keeps-publish P, Keeps-count P)

  pub Keeps-emit_new :
      (name subject : String) (version : ℤ) (correlation_id tenant_id : Option String)
      (payload : Object)
      → Keeps (Of P) (emit_new services name subject version correlation_id tenant_id payload)
  unfolding emit_new
  Keeps-emit_new name subject version correlation_id tenant_id payload =
      search (keeps_rules, Keeps-new_event, Keeps-emit)

  pub Keeps-dead_letter :
      (name : String) (e : Event) (error : String)
      → Keeps (Of P) (dead_letter services name e error)
  unfolding dead_letter
  Keeps-dead_letter name e error =
      Keeps-bind _ _ (record { at = λ s h. h })
        λ _. search (keeps_rules, Keeps-publish P, Keeps-count P)

  -- What every handler keeps, the loop keeps over all the events that it is given.
  Keeps-dispatch :
      (name : String) (on_event : Event → Exec (Agent Own) (Unit {0})) (e : Event)
      → Keeps (Of P) (on_event e)
      → Keeps (Of P) (dispatch services name on_event e)
  unfolding dispatch
  Keeps-dispatch name on_event e k =
      validated (validate services e.subject e.schema_version e.payload)
    where
      validated :
          (r : Result (Unit {0}))
          → Keeps (Of P) (elim r [
            | err reason ↦ dead_letter services name e (message reason)
            | ok _ ↦
                count "cavi_events_dispatched_total" 1
                  (("agent", name) ∷ ("subject", e.subject) ∷ [])
                >> on_event e
          ])
      validated (err reason) = Keeps-dead_letter name e (message reason)
      validated (ok _) = Keeps-bind _ _ (Keeps-count P _ _ _) λ _. k

  pub Keeps-run :
      (name : String) (on_event : Event → Exec (Agent Own) (Unit {0})) (es : List Event)
      → All (λ e. Keeps (Of P) (on_event e)) es
      → Keeps (Of P) (run services name on_event es)
  unfolding run
  Keeps-run name on_event [] k = record { at = λ s h. h }
  Keeps-run name on_event (e ∷ es) k =
      Keeps-bind _ _ (Keeps-dispatch name on_event e k.0) λ _. Keeps-run name on_event es k.1
