-- ===== src/Mapper/Erp/Outcome.antt =====
-- What the agent answers to a request.
use cavi_erp.Prelude.{
  ◌≡◌, ◌⊎◌, refl, ap, inl, inr, suc, String, true, Option-cases, none, some, pair_eq, string_eq,
}
use cavi_erp.Prelude.Int.{pos}
use cavi_erp.Dict.{get}
use cavi_erp.Json.{Value, Object}
use cavi_erp.Json.Casts.{dict_of, has_text_keys}
use cavi_erp.Error.{Error, Result, ok, err, message, >>=-eq-ok}
use cavi_erp.Exec.{◌>>=◌, attempt}
use cavi_erp.Services.{Services}
use cavi_erp.Agent.Event.{Event}
use cavi_erp.Agent.Runtime.{Agent, now_iso, emit_new}
use cavi_erp.Mapper.Erp.{
  Transformer, TransformFn, Job, failed_payload, transformed_payload, output_of, applied, guarded,
  is_transform_error, transform_record, failure_record, publish_outcome, read_job, on_event,
}

-- The record is a dictionary, a transform is registered for the schemas of the job, and it gives this
-- output for it.
abbrev pub Gives : Transformer → Job → Object → Object → Type 0
Gives transforms job source output =
    (fn : TransformFn) × (get (job.source_schema, job.target_schema) transforms ≡ some fn)
    × (dict_of job.source ≡ ok source)
    × (fn source ≡ ok output)

guarded-ok :
    (job : Job) (r : Result (Object × Object)) (made : Object × Object)
    → guarded job r ≡ ok made
    → r ≡ ok made
guarded-ok job (ok o) made e = e
guarded-ok job (err x) made e = cc

applied-ok :
    (fn : TransformFn) (value : Value) (source output : Object)
    → applied fn value ≡ ok (source, output)
    → (dict_of value ≡ ok source) × (fn source ≡ ok output)
applied-ok fn value source output e =
    let (d, read, rest) = >>=-eq-ok (dict_of value) _ e in
    let (o, gives, last) = >>=-eq-ok (fn d) _ rest in
    let same : d ≡ source = cc in
    let same' : o ≡ output = cc in (rw (← same) read, rw (← same, ← same') gives)

is_business :
    (m : String) (e : Error)
    → ◌≡◌ {A = Result (Object × Object)} (err (Error.transform_error m)) (err e)
    → is_transform_error e ≡ true
is_business m e same = let is : Error.transform_error m ≡ e = cc in rw (← is) refl

guarded-err :
    (job : Job) (r : Result (Object × Object)) (e : Error)
    → guarded job r ≡ err e
    → is_transform_error e ≡ true
guarded-err job (ok o) x e = cc
guarded-err job (err y) x e = is_business _ x e

output_of-ok :
    (transforms : Transformer) (job : Job) (source output : Object)
    → output_of transforms job ≡ ok (source, output)
    → Gives transforms job source output
unfolding output_of
output_of-ok transforms job source output e =
    elim (Option-cases (get (job.source_schema, job.target_schema) transforms)) [
      | inl absent ↦ cc (rw (output_of, absent) at e)
      | inr (fn, there) ↦
          let (read, gives) = applied-ok fn job.source source output (
            guarded-ok job (applied fn job.source) (source, output) (rw (output_of, there) at e)) in
          (fn, there, read, gives)
    ]

output_of-err :
    (transforms : Transformer) (job : Job) (reason : Error)
    → output_of transforms job ≡ err reason
    → (is_transform_error reason ≡ true)
      × ((source output : Object) → ¬ Gives transforms job source output)
unfolding output_of
output_of-err transforms job reason e =
    elim (Option-cases (get (job.source_schema, job.target_schema) transforms)) [
      | inl absent ↦ (
        is_business _ reason (rw (output_of, absent) at e),
        λ source output (fn, there, _, _). cc (absent, there),
      )
      | inr (fn, there) ↦ (
        guarded-err job (applied fn job.source) reason (rw (output_of, there) at e),
        λ source output (fn', there', read, gives).
            let same : fn ≡ fn' = cc in
            let made : applied fn job.source ≡ ok (source, output) =
              rw (same, read) (rw gives refl) in
            cc (ap (guarded job) made, rw (output_of, there) at e),
      )
    ]

module _ (services : Services) (e : Event) (job : Job) (agent : Agent Transformer) where
  abbrev at : String
  at = services.now_iso agent.runtime.ticks

  -- The agent after one reading of the clock.
  abbrev ticked : Agent Transformer
  ticked = record agent { runtime = record agent.runtime { ticks = suc agent.runtime.ticks } }

  abbrev announce : String → Object → Result (Unit {0}) × Agent Transformer
  announce subject payload =
      emit_new services "mapper" subject (pos 1) e.correlation_id none payload ticked

  abbrev pub Answered : Type 0
  Answered =
      ((source output : Object) × Gives agent.own job source output
        × (on_event services e agent
            ≡ announce "mapper.transform.completed"
                (transformed_payload services job source output at)))
      ⊎ ((reason : String) × ((source output : Object) → ¬ Gives agent.own job source output)
          × (on_event services e agent
              ≡ announce "mapper.transform.failed" (failed_payload job reason at)))

  -- Handling a request that has its five keys, with texts as its schemas, reads the clock once and ends
  -- in one emission. If a transform is registered for the schemas and gives an output for dict(record),
  -- that is mapper.transform.completed with the output; in every other case, whatever dict or the
  -- transform raises, it is mapper.transform.failed with a reason. It is assumed of a record that is a
  -- list of pairs that their keys are no numbers, Booleans or nulls.
  pub on_event-Answered : read_job e.payload ≡ ok job → has_text_keys job.source ≡ true → Answered
  unfolding on_event transform_record publish_outcome failure_record now_iso ◌>>=◌ attempt
  on_event-Answered read keyed = decided (output_of agent.own job) refl
    where
      decided : (r : Result (Object × Object)) → output_of agent.own job ≡ r → Answered
      decided (ok (source, output)) made =
          inl (source, output, output_of-ok agent.own job source output made, rw (read, made) refl)
      decided (err reason) made =
          let (business, nothing) = output_of-err agent.own job reason made in
          inr (message reason, nothing, rw (read, made, business) refl)
