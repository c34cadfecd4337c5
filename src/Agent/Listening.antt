-- ===== src/Agent/Listening.antt =====
-- The loop of `run` of agents/base/agent.py over the raw messages of the bus. What `json.loads` makes of
-- a text is a parameter.
use cavi_erp.Prelude.{
  ◌≡◌, refl, String, Bool-cases, inl, inr, List, [], ◌∷◌, ◌==◌, string_eq, if◌then◌else◌,
}
use cavi_erp.Json.{Value}
use cavi_erp.Error
use cavi_erp.Error.{Error, Result, ok, err, Result-cases}
use cavi_erp.Exec
use cavi_erp.Exec.{Exec, pure, lift, ◌>>=◌, ◌>>◌}
use cavi_erp.Services.{Services}
use cavi_erp.Agent.Event.{Event, object, from_envelope}
use cavi_erp.Agent.Runtime.{Agent, dispatch, run}

-- `message["type"]` and `message["data"]`
pub record Message : Type 0 where
  pub kind : String
  pub data_text : String

module _ (services : Services) (loads : String → Result Value) {Own : Type 0} (name : String)
    (on_event : Event → Exec (Agent Own) (Unit {0})) where
  -- `Event.from_dict(json.loads(message["data"]))`
  abbrev pub read_event : Message → Result Event
  read_event m = Error.◌>>=◌ (Error.◌>>=◌ (loads m.data_text) object) from_envelope

  -- `run`: what is no message is passed over, and an exception ends the loop.
  unfoldable pub listen : List Message → Exec (Agent Own) (Unit {0})
  listen [] = pure tt
  listen (m ∷ ms) =
      let rest = listen ms in
      if m.kind == "message"
      then (do e ← lift (read_event m); dispatch services name on_event e; rest)
      else rest

  -- What the loop makes of the agent is what it makes of the events that it could read.
  pub listen-run :
      (ms : List Message) (s : Agent Own)
      → (es : List Event) × ((listen ms s).1 ≡ (run services name on_event es s).1)
  unfolding listen run ◌>>=◌
  listen-run [] s = ([], refl)
  listen-run (m ∷ ms) s = elim (Bool-cases (m.kind == "message")) [
    | inr other ↦ let (es, same) = listen-run ms s in (es, rw other same)
    | inl message ↦ elim (Result-cases (read_event m)) [
      | inl (x, unread) ↦ ([], rw (message, unread) refl)
      | inr (e, read) ↦
          let (es, same) = listen-run ms (dispatch services name on_event e s).1 in
          (
            e ∷ es,
            rw (message, read)
                (dispatched (dispatch services name on_event e s) (listen ms)
                  (run services name on_event es) same),
          )
    ]
  ]
    where
      dispatched :
          (r : Result (Unit {0}) × Agent Own) (m n : Exec (Agent Own) (Unit {0}))
          → (m r.1).1 ≡ (n r.1).1
          → (Exec.go_on (λ _. m) r.0 r.1).1 ≡ (Exec.go_on (λ _. n) r.0 r.1).1
      dispatched (ok _, s') m n same = same
      dispatched (err x, s') m n same = refl
