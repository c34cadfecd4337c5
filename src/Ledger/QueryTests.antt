-- ===== src/Ledger/QueryTests.antt =====
-- Runs of the query agent.
use cavi_erp.Prelude.{◌≡◌, refl, none, [], ◌∷◌, string_eq}
use cavi_erp.Prelude.Int.{pos}
use cavi_erp.Dict.{get, put}
use cavi_erp.Json.{str, obj, end, arr, cons, nil}
use cavi_erp.Json.Casts.{has_text_keys, dict_of}
use cavi_erp.Error.{ok}
use cavi_erp.Fixtures.{services}
use cavi_erp.Agent.Event.{Event, item, text}
use cavi_erp.Agent.Runtime.{fresh_runtime}
use cavi_erp.Ledger.Query.{Query, Querier, read_query}
use cavi_erp.Ledger.Query.Replies.{Replied, on_event-Replied}

-- A reader with one invoice.
abbrev querier : Querier
querier = record {
  reader = λ tenant_id subject filters. ok (str "invoice 1" ∷ []);
  schema_version = "cavi.ledger.v1";
  repr = λ v. "'invoices'";
}

abbrev request : Event
request = record {
  subject = "ledger.query.request";
  schema_version = pos 1;
  source = "n8n";
  payload =
      ("tenant_id", str "t") ∷ ("erp_platform", str "netsuite") ∷ ("subject", str "invoices") ∷ [];
  id = "e";
  correlation_id = none;
  tenant_id = none;
}

abbrev asked : Query
asked = record {
  tenant_id = str "t";
  erp_platform = "netsuite";
  subject = str "invoices";
  filters = obj end;
}

reads : read_query request.payload ≡ ok asked
unfolding read_query item text get
reads = refl

on_event-Replied_example :
    Replied querier services request asked (record { own = tt; runtime = fresh_runtime })
unfolding has_text_keys
on_event-Replied_example =
    on_event-Replied querier services request asked (record { own = tt; runtime = fresh_runtime })
      reads refl

-- A list of pairs is a dictionary, and a null is none.
pairs_are_filters :
    dict_of (arr (cons (arr (cons (str "status") (cons (str "open") nil))) nil))
    ≡ ok (("status", str "open") ∷ [])
unfolding dict_of put
pairs_are_filters = refl
