-- ===== src/Forge/NetSuite/Retries.antt =====
-- Retried writes converge, whichever requests reach NetSuite and whichever responses get lost.
use cavi_erp.Prelude.{
  ◌≡◌, ◌⊎◌, refl, ap, ◌∙◌, inl, inr, ℕ, zero, suc, String, Bool, true, false, Bool-cases, List, [],
  ◌∷◌, ◌++◌, string_eq, if◌then◌else◌, All,
}
use cavi_erp.Json.{Value, Object}
use cavi_erp.Error.{Error, Result, err, Result-cases}
use cavi_erp.Forge.Write.{WriteOperation}
use cavi_erp.Forge.NetSuite.{
  Request, Response, answered, Wire, Transport, Client, record_url, sign_request,
}
use cavi_erp.Forge.NetSuite.Session.{put_request, confirmation, apply}
use cavi_erp.Forge.NetSuite.Sending.{asking, apply-cases}
use cavi_erp.Forge.NetSuite.Outcomes.{Succeeded, confirmation-ok}
use cavi_erp.Forge.NetSuite.Records.{
  Records, upsert, carry_out, records_after, records_after-snoc, Written, upsert-Written,
  Written-trans,
}

module _ (repr : Value → String) (transport : Transport) (c : Client)
    (accepts : Wire → Request → Bool) (op : WriteOperation) (start : Records) where
  -- NetSuite's response with a status from 200 to 299 means that it carried the request out.
  abbrev pub IsHonest : Type 0
  IsHonest =
      (before : Wire) (r : Request) (response : Response)
      → transport before r ≡ answered response
      → Succeeded response
      → accepts before r ≡ true

  abbrev pub held : Wire → Records
  held sent = records_after accepts [] sent start

  -- Attempts at the write, one after the other, with their results.
  unfoldable pub retry : ℕ → Wire → List (Result Object) × Wire
  retry zero sent = ([], sent)
  retry (suc n) sent =
      let (r, sent') = apply repr transport c op sent in
      let (rs, left) = retry n sent' in (r ∷ rs, left)

  abbrev pub Failed : Result Object → Type 0
  Failed r = (e : Error) × (r ≡ err e)

  abbrev Tried : Result Object × Wire → Wire → Type 0
  Tried (r, sent') sent =
      (Failed r × (held sent' ≡ held sent))
      ⊎ (held sent' ≡ upsert (record_url c op) op.payload (held sent))

  held-asking : (sent : Wire) → held (sent ++ asking c op "PUT" ∷ []) ≡ held sent
  unfolding carry_out sign_request
  held-asking sent = records_after-snoc accepts [] sent (asking c op "PUT") start

  held-put :
      (sent : Wire) (header : String)
      → held (sent ++ put_request c op header ∷ []) ≡ (
          if accepts sent (put_request c op header)
          then upsert (record_url c op) op.payload (held sent)
          else held sent)
  unfolding carry_out put_request
  held-put sent header = records_after-snoc accepts [] sent (put_request c op header) start

  apply-Tried : IsHonest → (sent : Wire) → Tried (apply repr transport c op sent) sent
  apply-Tried honest sent = elim (apply-cases repr transport c op sent) [
    | inl (e, r) ↦ rw r (inl ((e, refl), refl))
    | inr (_, inl (e, r)) ↦ rw r (inl ((e, refl), held-asking sent))
    | inr (_, inr (header, _, r)) ↦
        let asked : Wire = sent ++ asking c op "PUT" ∷ [] in
        let request : Request = put_request c op header in
        rw r (elim (Bool-cases (accepts asked request)) [
          | inl carried ↦
              inr (held-put asked header ∙ rw carried (ap (upsert _ _) (held-asking sent)))
          | inr dropped ↦ inl (
            unconfirmed asked header dropped,
            held-put asked header ∙ rw dropped (held-asking sent),
          )
        ])
  ]
    where
      unconfirmed :
          (asked : Wire) (header : String)
          → accepts asked (put_request c op header) ≡ false
          → Failed (confirmation repr op (transport asked (put_request c op header)))
      unconfirmed asked header dropped =
          elim (Result-cases (confirmation repr op (transport asked (put_request c op header)))) [
            | inl failed ↦ failed
            | inr (confirmed, e) ↦
                let (response, there, good, _, _) = confirmation-ok repr op _ confirmed e in
                cc (honest asked (put_request c op header) response there good, dropped)
          ]

  -- However often the same write is attempted, and whichever requests reach NetSuite and responses
  -- get lost: either every attempt failed and the records are as they were, or they are as one upsert
  -- makes them. The record under the write's URL has the fields of its payload merged into what it was,
  -- and the records under all other URLs are as they were. It is assumed that NetSuite carries out what
  -- it answers with a status from 200 to 299.
  pub retry_converges :
      IsHonest
      → (n : ℕ) (sent : Wire)
      → (All Failed (retry n sent).0 × (held (retry n sent).1 ≡ held sent))
        ⊎ Written (record_url c op) op.payload (held sent) (held (retry n sent).1)
  unfolding retry
  retry_converges honest zero sent = inl (tt, refl)
  retry_converges honest (suc n) sent =
      let sent' : Wire = (apply repr transport c op sent).1 in
      elim (apply-Tried honest sent) [
        | inl (failed, same) ↦ elim (retry_converges honest n sent') [
          | inl (all, still) ↦ inl ((failed, all), still ∙ same)
          | inr written ↦ inr (rw same at written)
        ]
        | inr upserted ↦
            let first : Written (record_url c op) op.payload (held sent) (held sent') =
              rw upserted (upsert-Written (record_url c op) op.payload (held sent)) in
            elim (retry_converges honest n sent') [
              | inl (_, still) ↦ inr (rw still first)
              | inr written ↦
                  inr (Written-trans (record_url c op) op.payload _ (held sent') _ first written)
            ]
      ]
