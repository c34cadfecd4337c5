-- ===== src/Error.antt =====
-- The exception classes of the agents, with their messages, and computations that may raise one.
use cavi_erp.Prelude.{◌≡◌, ◌⊎◌, inl, inr, refl, Bool, true, false, String, Option, none, some}

pub data Error : Type 0 where
  key_error type_error value_error : String → Error
  schema_not_found validation_error : String → Error
  invalid_transition erp_write_error breaker_open : String → Error
  ledger_error unbalanced_entry query_error source_unavailable : String → Error
  unsupported_platform credential_not_found token_expired vault_error : String → Error
  database_error system_exit : String → Error
  transform_error no_transform_path rate_not_found malformed_webhook : String → Error

-- `str(exc)`
abbrev pub message : Error → String
message (Error.key_error m) = m
message (Error.type_error m) = m
message (Error.value_error m) = m
message (Error.schema_not_found m) = m
message (Error.validation_error m) = m
message (Error.invalid_transition m) = m
message (Error.erp_write_error m) = m
message (Error.breaker_open m) = m
message (Error.ledger_error m) = m
message (Error.unbalanced_entry m) = m
message (Error.query_error m) = m
message (Error.source_unavailable m) = m
message (Error.unsupported_platform m) = m
message (Error.credential_not_found m) = m
message (Error.token_expired m) = m
message (Error.vault_error m) = m
message (Error.database_error m) = m
message (Error.system_exit m) = m
message (Error.transform_error m) = m
message (Error.no_transform_path m) = m
message (Error.rate_not_found m) = m
message (Error.malformed_webhook m) = m

pub data Result {κ} (V : Type κ) : Type κ where
  err : Error → Result V
  ok : V → Result V

abbrev pub ◌>>=◌ {κ μ} : {V : Type κ} {W : Type μ} → Result V → (V → Result W) → Result W
err raised >>= rest = err raised
ok value >>= rest = rest value

infixl 5 ◌>>=◌
-- `if test: raise e`
abbrev pub raise_if : Bool → Error → Result (Unit {0})
raise_if true e = err e
raise_if false e = ok tt

abbrev pub or_raise {ℓ} : {A : Type ℓ} → Option A → Error → Result A
or_raise none e = err e
or_raise (some a) e = ok a

pub Result-cases :
    {A : Type 0} (r : Result A) → ((e : Error) × (r ≡ err e)) ⊎ ((a : A) × (r ≡ ok a))
Result-cases (err e) = inl (e, refl)
Result-cases (ok a) = inr (a, refl)

pub >>=-eq-ok {ℓ κ} :
    {V : Type ℓ} {W : Type κ} (r : Result V) (rest : V → Result W) {w : W}
    → (r >>= rest) ≡ ok w
    → (v : V) × (r ≡ ok v) × (rest v ≡ ok w)
>>=-eq-ok (err raised) rest h = cc
>>=-eq-ok (ok v) rest h = (v, refl, h)

pub or_raise-eq-ok {ℓ} :
    {V : Type ℓ} (found : Option V) (raised : Error) {v : V}
    → or_raise found raised ≡ ok v
    → found ≡ some v
or_raise-eq-ok none raised h = cc
or_raise-eq-ok (some v) raised h = cc
