-- ===== src/Forge/NetSuite/Sending.antt =====
-- How a call on the ERP ends, and what it has sent by then.
use cavi_erp.Prelude.{◌≡◌, ◌⊎◌, refl, inl, inr, String, [], ◌∷◌, ◌++◌}
use cavi_erp.Json.{Value}
use cavi_erp.Error.{Error, Result, ok, err, Result-cases}
use cavi_erp.Exec.{Exec, ◌>>=◌, lift}
use cavi_erp.Forge.Write.{WriteOperation}
use cavi_erp.Forge.NetSuite.{
  Request, Reply, Wire, Transport, Client, require_configured, record_url, addressable,
  sign_request, signature,
}
use cavi_erp.Forge.NetSuite.Session.{
  put_request, get_request, confirmation, fetched, send, sign, apply, fetch,
}

-- The request for the signature of a call on the record of a write.
abbrev pub asking : Client → WriteOperation → String → Request
asking c op verb = sign_request c op verb (record_url c op)

module _ (repr : Value → String) (transport : Transport) (c : Client) where
  abbrev pub Signs : WriteOperation → String → Wire → String → Type 0
  Signs op verb sent header =
      signature repr op verb (record_url c op) (transport sent (asking c op verb)) ≡ ok header

  -- What `apply` and `fetch` do once their checks have passed.
  abbrev exchange :
      {A : Type 0} → WriteOperation → String → (String → Request) → (Reply → Result A) → Exec Wire A
  exchange op verb request read = do
    header ← sign repr transport c op verb (record_url c op)
    reply ← send transport (request header)
    lift (read reply)

  -- A call ends before anything is sent, or after Vault was asked in vain, or after the signed
  -- request.
  abbrev pub Unsent : {A : Type 0} → Wire → Result A × Wire → Type 0
  Unsent sent r = (e : Error) × (r ≡ (err e, sent))

  abbrev pub Unsigned : {A : Type 0} → WriteOperation → String → Wire → Result A × Wire → Type 0
  Unsigned op verb sent r = (e : Error) × (r ≡ (err e, sent ++ asking c op verb ∷ []))

  abbrev pub Sent :
      {A : Type 0}
      → WriteOperation
      → String
      → (String → Request)
      → (Reply → Result A)
      → Wire
      → Result A × Wire
      → Type 0
  Sent op verb request read sent r =
      (header : String) × Signs op verb sent header
      × (r ≡ (
        read (transport (sent ++ asking c op verb ∷ []) (request header)),
        (sent ++ asking c op verb ∷ []) ++ request header ∷ [],
      ))

  exchange-cases :
      {A : Type 0} (op : WriteOperation) (verb : String) (request : String → Request)
      (read : Reply → Result A) (sent : Wire)
      → Unsigned op verb sent (exchange op verb request read sent)
        ⊎ Sent op verb request read sent (exchange op verb request read sent)
  unfolding sign send ◌>>=◌
  exchange-cases op verb request read sent =
      elim (Result-cases
        (signature repr op verb (record_url c op) (transport sent (asking c op verb)))) [
          | inl (e, refused) ↦ inl (e, rw refused refl)
          | inr (header, signed) ↦ inr (header, signed, rw signed refl)
        ]

  abbrev pub Ready : WriteOperation → Type 0
  Ready op = (require_configured c ≡ ok tt) × (addressable repr op op.target_external_id ≡ ok tt)

  pub apply-cases :
      (op : WriteOperation) (sent : Wire)
      → Unsent sent (apply repr transport c op sent)
        ⊎ (Ready op
            × (Unsigned op "PUT" sent (apply repr transport c op sent)
                ⊎ Sent op "PUT"
                    (put_request c op)
                    (confirmation repr op)
                    sent
                    (apply repr transport c op sent)))
  unfolding apply ◌>>=◌
  apply-cases op sent = elim (Result-cases (require_configured c)) [
    | inl (e, unset) ↦ inl (e, rw unset refl)
    | inr (_, set) ↦ elim (Result-cases (addressable repr op op.target_external_id)) [
      | inl (e, astray) ↦ inl (e, rw (set, astray) refl)
      | inr (_, fits) ↦ inr (
        (set, fits),
        rw (set, fits) (exchange-cases op "PUT" (put_request c op) (confirmation repr op) sent),
      )
    ]
  ]

  pub fetch-cases :
      (op : WriteOperation) (sent : Wire)
      → Unsent sent (fetch repr transport c op sent)
        ⊎ (Unsigned op "GET" sent (fetch repr transport c op sent)
            ⊎ Sent op "GET"
                (get_request c op)
                (fetched repr op)
                sent
                (fetch repr transport c op sent))
  unfolding fetch ◌>>=◌
  fetch-cases op sent = elim (Result-cases (require_configured c)) [
    | inl (e, unset) ↦ inl (e, rw unset refl)
    | inr (_, set) ↦
        inr (rw set (exchange-cases op "GET" (get_request c op) (fetched repr op) sent))
  ]
