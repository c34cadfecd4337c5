-- ===== src/Agent/Event.antt =====
-- agents/base/contract.py: the envelope of an event.
use cavi_erp.Prelude.{◌≡◌, refl, String, Option, none, some, [], ◌∷◌, ◌++◌, string_eq}
use cavi_erp.Prelude.Int.{ℤ}
use cavi_erp.Dict.{get}
use cavi_erp.Json.{
  Value, Object, null, int, str, obj, to_dict, of_dict, to_dict-of_dict, str_or_null,
}
use cavi_erp.Error.{Error, Result, ok, err, ◌>>=◌, or_raise}

pub record Event : Type 0 where
  pub subject : String
  pub schema_version : ℤ
  pub source : String
  pub payload : Object
  pub id : String
  pub correlation_id : Option String
  pub tenant_id : Option String

-- `Event.to_dict`
unfoldable pub to_envelope : Event → Object
to_envelope e =
    ("id", str e.id)
    ∷ ("subject", str e.subject)
    ∷ ("schema_version", int e.schema_version)
    ∷ ("source", str e.source)
    ∷ ("correlation_id", str_or_null e.correlation_id)
    ∷ ("tenant_id", str_or_null e.tenant_id)
    ∷ ("payload", obj (of_dict e.payload))
    ∷ []

-- `data[key]`
unfoldable pub item : String → Object → Result Value
item key d = or_raise (get key d) (Error.key_error key)

-- A value read where the code goes on as if it were a text; another kind of value has no place in
-- the typed envelope of the model.
unfoldable pub text : Value → Result String
text (str s) = ok s
text _ = err (Error.type_error "text")

unfoldable pub text_or_null : Option Value → Result (Option String)
text_or_null none = ok none
text_or_null (some (str s)) = ok (some s)
text_or_null (some null) = ok none
text_or_null (some _) = err (Error.type_error "text or null")

unfoldable pub whole : Value → Result ℤ
whole (int n) = ok n
whole _ = err (Error.type_error "integer")

unfoldable pub object : Value → Result Object
object (obj fs) = ok (to_dict fs)
object _ = err (Error.type_error "object")

-- `Event.from_dict`
unfoldable pub from_envelope : Object → Result Event
unfolding item text text_or_null whole object
from_envelope data' = do
  id ← (item "id" data' >>= text)
  subject ← (item "subject" data' >>= text)
  schema_version ← (item "schema_version" data' >>= whole)
  source ← (item "source" data' >>= text)
  correlation_id ← text_or_null (get "correlation_id" data')
  tenant_id ← text_or_null (get "tenant_id" data')
  payload ← (item "payload" data' >>= object)
  ok (record {
    subject = subject;
    schema_version = schema_version;
    source = source;
    payload = payload;
    id = id;
    correlation_id = correlation_id;
    tenant_id = tenant_id;
  })

text_or_null-str_or_null : (o : Option String) → text_or_null (some (str_or_null o)) ≡ ok o
unfolding text_or_null
text_or_null-str_or_null none = refl
text_or_null-str_or_null (some s) = refl

-- Reading back the envelope of an event, whatever keys follow it, gives the event.
pub from-to_envelope : (e : Event) (rest : Object) → from_envelope (to_envelope e ++ rest) ≡ ok e
unfolding from_envelope to_envelope get
from-to_envelope e rest =
    rw
      (
        text_or_null-str_or_null e.correlation_id,
        text_or_null-str_or_null e.tenant_id,
        to_dict-of_dict e.payload,
      )
      refl
