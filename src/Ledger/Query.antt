-- ===== src/Ledger/Query.antt =====
-- agents/ledger/query.py and query_agent.py: reads of an ERP's resources, with one event for the
-- outcome.
pub mod Replies
use cavi_erp.Prelude.{
  String, Bool, true, false, Option, none, some, List, [], ◌∷◌, ◌<>◌, string_eq, if◌then◌else◌,
  length,
}
use cavi_erp.Prelude.Int.{pos}
use cavi_erp.Dict.{get}
use cavi_erp.Json.{Value, Object, str, int, arr, obj, end, of_dict, of_list}
use cavi_erp.Json.Casts.{dict_of}
use cavi_erp.Error
use cavi_erp.Error.{Error, Result, ok, err, message}
use cavi_erp.Exec.{Exec, pure, raise, lift, attempt, ◌>>=◌, ◌>>◌}
use cavi_erp.Services.{Services}
use cavi_erp.Agent.Event.{Event, item, text}
use cavi_erp.Agent.Runtime.{Agent, now_iso, emit_new}

-- `ErpReader.read(tenant_id, subject, filters)`
abbrev pub ErpReader : Type 0
ErpReader = Value → Value → Object → Result (List Value)

-- `UnconfiguredErpReader`
abbrev pub unconfigured_reader : ErpReader
unconfigured_reader tenant_id subject filters =
    err (Error.query_error "no ERP reader configured; inject an ErpReader")

-- What the request of a query names.
pub record Query : Type 0 where
  pub tenant_id : Value
  pub erp_platform : String
  pub subject : Value
  pub filters : Value

abbrev or_empty : Option Value → Value
or_empty none = obj end
or_empty (some v) = v

-- The fields of the request, in the order in which the handler reads them.
unfoldable pub read_query : Object → Result Query
read_query req = Error.◌>>=◌ (item "subject" req) λ subject.
    Error.◌>>=◌ (item "tenant_id" req) λ tenant_id.
      Error.◌>>=◌ (Error.◌>>=◌ (item "erp_platform" req) text) λ erp_platform. ok (record {
        tenant_id = tenant_id;
        erp_platform = erp_platform;
        subject = subject;
        filters = or_empty (get "filters" req);
      })

unfoldable pub completed_payload : Query → Object → List Value → String → String → Object
completed_payload q filters rows schema_version queried_at =
    ("tenant_id", q.tenant_id)
    ∷ ("erp_platform", str q.erp_platform)
    ∷ ("subject", q.subject)
    ∷ ("filters", obj (of_dict filters))
    ∷ ("result_count", int (pos (length rows)))
    ∷ ("payload", arr (of_list rows))
    ∷ ("schema_version", str schema_version)
    ∷ ("queried_at", str queried_at)
    ∷ []

unfoldable pub failed_payload : Query → Object → String → String → Object
failed_payload q filters reason failed_at =
    ("tenant_id", q.tenant_id)
    ∷ ("erp_platform", str q.erp_platform)
    ∷ ("subject", q.subject)
    ∷ ("filters", obj (of_dict filters))
    ∷ ("reason", str reason)
    ∷ ("failed_at", str failed_at)
    ∷ []

abbrev pub is_query_error : Error → Bool
is_query_error (Error.query_error _) = true
is_query_error _ = false

-- The reader's configuration, and how the platform shows a value, `repr(subject)`.
pub record Querier : Type 0 where
  pub reader : ErpReader
  pub schema_version : String
  pub repr : Value → String

module _ (querier : Querier) where
  -- `str(exc)` of what a failed read raises: a `LedgerQueryError` passes as it is.
  abbrev pub reason_of : Query → Error → String
  reason_of q e =
      if is_query_error e
      then message e
      else ("read of "
          <> querier.repr q.subject
          <> " from "
          <> q.erp_platform
          <> " failed: "
          <> message e)

  -- Any exception of a read becomes a `LedgerQueryError`.
  abbrev pub surfaced : {A : Type 0} → Query → Result A → Result A
  surfaced q (ok a) = ok a
  surfaced q (err e) = err (Error.query_error (reason_of q e))

  -- The read, with the `dict(filters)` that it is given.
  unfoldable pub read_rows : Query → Result (Object × List Value)
  read_rows q = surfaced q (
      Error.◌>>=◌ (dict_of q.filters) λ filters.
        Error.◌>>=◌ (querier.reader q.tenant_id q.subject filters) λ rows. ok (filters, rows))

  module _ (services : Services) where
    -- `LedgerQuerier.query`
    unfoldable pub query : Query → Exec (Agent (Unit {0})) Object
    unfolding read_rows completed_payload
    query q = do
      (filters, rows) ← lift (read_rows q)
      queried_at ← now_iso services
      pure (completed_payload q filters rows querier.schema_version queried_at)

    -- `LedgerQuerier.failure`
    unfoldable pub failure : Query → String → Exec (Agent (Unit {0})) Object
    unfolding failed_payload
    failure q reason = do
      failed_at ← now_iso services
      filters ← lift (dict_of q.filters)
      pure (failed_payload q filters reason failed_at)

    unfoldable pub publish_reply :
        Event → Query → Result Object → Exec (Agent (Unit {0})) (Unit {0})
    unfolding failure
    publish_reply e q (ok payload) =
        emit_new services "ledger" "ledger.query.completed" (pos 1) e.correlation_id none payload
    publish_reply e q (err reason) =
        if is_query_error reason
        then (do
          payload ← failure q (message reason)
          emit_new services "ledger" "ledger.query.failed" (pos 1) e.correlation_id none payload)
        else raise reason

    -- `LedgerQueryAgent.handle`
    unfoldable pub on_event : Event → Exec (Agent (Unit {0})) (Unit {0})
    unfolding query publish_reply read_query
    on_event e = do
      q ← lift (read_query e.payload)
      outcome ← attempt (query q)
      publish_reply e q outcome
