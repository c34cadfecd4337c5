-- ===== src/Ledger/Query/Replies.antt =====
-- What the agent replies to a query.
use cavi_erp.Prelude.{◌≡◌, ◌⊎◌, refl, inl, inr, suc, String, true, none, List}
use cavi_erp.Prelude.Int.{pos}
use cavi_erp.Json.{Value, Object}
use cavi_erp.Json.Casts.{dict_of, has_text_keys}
use cavi_erp.Error.{Error, Result, ok, err, Result-cases}
use cavi_erp.Exec.{◌>>=◌, attempt}
use cavi_erp.Services.{Services}
use cavi_erp.Agent.Event.{Event}
use cavi_erp.Agent.Runtime.{Agent, now_iso, emit_new}
use cavi_erp.Ledger.Query.{
  Query, Querier, completed_payload, failed_payload, reason_of, read_rows, query, failure,
  publish_reply, read_query, on_event,
}

abbrev Stateless : Type 0
Stateless = Agent (Unit {0})

module _ (querier : Querier) (services : Services) (e : Event) (q : Query) (agent : Stateless) where
  abbrev at : String
  at = services.now_iso agent.runtime.ticks

  -- The agent after one reading of the clock.
  abbrev pub ticked : Stateless
  ticked = record agent { runtime = record agent.runtime { ticks = suc agent.runtime.ticks } }

  abbrev announce : String → Object → Result (Unit {0}) × Stateless
  announce subject payload =
      emit_new services "ledger" subject (pos 1) e.correlation_id none payload ticked

  abbrev pub Replied : Type 0
  Replied =
      ((filters : Object) × (rows : List Value) × (dict_of q.filters ≡ ok filters)
        × (querier.reader q.tenant_id q.subject filters ≡ ok rows)
        × (on_event querier services e agent
            ≡ announce "ledger.query.completed"
                (completed_payload q filters rows querier.schema_version at)))
      ⊎ (((filters : Object) × (raised : Error) × (dict_of q.filters ≡ ok filters)
            × (querier.reader q.tenant_id q.subject filters ≡ err raised)
            × (on_event querier services e agent
                ≡ announce "ledger.query.failed"
                    (failed_payload q filters (reason_of querier q raised) at)))
          ⊎ ((raised : Error) × (dict_of q.filters ≡ err raised)
              × (on_event querier services e agent ≡ (err raised, ticked))))

  -- Handling a query that has its keys subject, tenant_id and erp_platform, the last with a text, reads
  -- the clock once. If dict(filters) gives a dictionary, it ends in one emission: ledger.query.completed
  -- with the rows where the reader gives them, and ledger.query.failed with the reason where the reader
  -- raises anything. If dict(filters) raises (for a null, say), nothing is emitted, not even the
  -- failure: its error leaves the handler. It is assumed of filters that are a list of pairs that their
  -- keys are no numbers, Booleans or nulls.
  pub on_event-Replied : read_query e.payload ≡ ok q → has_text_keys q.filters ≡ true → Replied
  unfolding on_event query publish_reply failure read_rows now_iso ◌>>=◌ attempt
  on_event-Replied read keyed = elim (Result-cases (dict_of q.filters)) [
    | inl (x, bad) ↦ inr (inr (x, bad, rw (read, bad) (rw (failure, bad) refl)))
    | inr (filters, good) ↦ elim (Result-cases (querier.reader q.tenant_id q.subject filters)) [
      | inl (x, raised) ↦
          inr (inl (filters, x, good, raised, rw (read, good, raised) (rw (failure, good) refl)))
      | inr (rows, there) ↦ inl (filters, rows, good, there, rw (read, good, there) refl)
    ]
  ]
