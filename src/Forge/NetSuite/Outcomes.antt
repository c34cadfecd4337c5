-- ===== src/Forge/NetSuite/Outcomes.antt =====
-- What the results of the client mean.
use cavi_erp.Prelude.{
  ◌≡◌, ◌⊎◌, refl, sym, ap, ◌∙◌, inl, inr, String, Bool-cases, Option-cases, Option, none, some, [],
  ◌∷◌, ◌++◌, arith, ◌==◌, string_eq, nat_eq, eqb_iff, ◌≤◌, ◌<◌,
}
use cavi_erp.Prelude.Int.{pos}
use cavi_erp.Dict.{get}
use cavi_erp.Json.{
  Value, Object, null, bool, arr, str, int, obj, to_dict, of_dict, as_obj, of_dict-to_dict,
}
use cavi_erp.Error.{ok}
use cavi_erp.Forge.Write.{WriteOperation, erp_address}
use cavi_erp.Forge.NetSuite.{
  Response, Reply, answered, http_error, Wire, Transport, Client, json_of, is_success,
}
use cavi_erp.Forge.NetSuite.Session.{put_request, get_request, confirmation, fetched, apply, fetch}
use cavi_erp.Forge.NetSuite.Sending.{asking, apply-cases, fetch-cases}

ok_inj {ℓ} : {A : Type ℓ} {a b : A} → ok a ≡ ok b → a ≡ b
ok_inj e = cc

abbrev pub Succeeded : Response → Type 0
Succeeded response = (200 ≤ response.status_code) × (response.status_code < 300)

abbrev pub Found : Response → Option Object → Type 0
Found response found =
    ((found ≡ none) × (response.status_code ≡ 404))
    ⊎ ((record_body : Object) × (found ≡ some record_body)
        × Succeeded response
        × (response.body ≡ some (obj (of_dict record_body))))

pub confirmation-ok :
    (repr : Value → String) (op : WriteOperation) (reply : Reply) (confirmed : Object)
    → confirmation repr op reply ≡ ok confirmed
    → (response : Response) × (reply ≡ answered response)
      × Succeeded response
      × (get "external_id" confirmed ≡ some (str (erp_address op)))
      × (get "status_code" confirmed ≡ some (int (pos response.status_code)))
unfolding confirmation get
confirmation-ok repr op (http_error reason) confirmed e = cc
confirmation-ok repr op (answered response) confirmed e = elim (Bool-cases (is_success response)) [
  | inr bad ↦ cc (rw bad at e)
  | inl good ↦
      (response, refl, ground (arith, good), ground arith, rw (← ok_inj (rw good at e)) refl)
]

as_obj-some :
    (v : Option Value) (b : Object)
    → elim v as (λ _. Option Object) [ none ↦ none | some w ↦ as_obj w ] ≡ some b
    → v ≡ some (obj (of_dict b))
as_obj-some none b e = cc
as_obj-some (some (obj fs)) b e =
    let same : to_dict fs ≡ b = cc in
    rw (← same) (ap (λ g. some (obj g)) (sym (of_dict-to_dict fs)))
as_obj-some (some null) b e = cc
as_obj-some (some (bool x)) b e = cc
as_obj-some (some (int n)) b e = cc
as_obj-some (some (str s)) b e = cc
as_obj-some (some (arr xs)) b e = cc

fetched-ok :
    (repr : Value → String) (op : WriteOperation) (reply : Reply) (found : Option Object)
    → fetched repr op reply ≡ ok found
    → (response : Response) × (reply ≡ answered response) × Found response found
unfolding fetched json_of
fetched-ok repr op (http_error reason) found e = cc
fetched-ok repr op (answered response) found e = elim (Bool-cases (response.status_code == 404)) [
  | inl gone ↦
      (response, refl, inl (ok_inj (sym (rw gone at e)), (eqb_iff response.status_code 404).0 gone))
  | inr here ↦ elim (Bool-cases (is_success response)) [
    | inr bad ↦ cc (rw (here, bad) at e)
    | inl good ↦ elim (Option-cases (json_of response)) [
      | inl no_json ↦ cc (rw (here, good, no_json) at e)
      | inr (body, json) ↦ (
        response,
        refl,
        inr (
          body,
          ok_inj (sym (rw (here, good, json) at e)),
          ground (arith, good),
          as_obj-some response.body body json,
        ),
      )
    ]
  ]
]

module _ (repr : Value → String) (transport : Transport) (c : Client) (op : WriteOperation) where
  -- A write is confirmed only by a response of NetSuite, with a status from 200 to 299, to an upsert
  -- of its payload at its record, the last request sent; the confirmation names the external id that
  -- the record stands under, and the status.
  pub apply_confirms :
      (sent : Wire) (confirmed : Object)
      → (apply repr transport c op sent).0 ≡ ok confirmed
      → (header : String) × (earlier : Wire) × (response : Response) × ((apply repr transport c op
            sent).1
          ≡ earlier ++ put_request c op header ∷ [])
        × (transport earlier (put_request c op header) ≡ answered response)
        × Succeeded response
        × (get "external_id" confirmed ≡ some (str (erp_address op)))
        × (get "status_code" confirmed ≡ some (int (pos response.status_code)))
  apply_confirms sent confirmed e = elim (apply-cases repr transport c op sent) [
    | inl (_, r) ↦ cc (r, e)
    | inr (_, inl (_, r)) ↦ cc (r, e)
    | inr (_, inr (header, _, r)) ↦
        let (response, there, good, id, status) =
          confirmation-ok repr op _ confirmed (sym (ap (λ x. x.0) r) ∙ e) in
        (header, sent ++ asking c op "PUT" ∷ [], response, ap (λ x. x.1) r, there, good, id, status)
  ]

  -- What a fetch finds is what NetSuite says: no record only where the last request sent, a read of
  -- the very URL that an upsert of the write goes to, was answered with status 404; a record only where
  -- it was answered with a status from 200 to 299 and that record as its body. Any other reply raises.
  pub fetch_faithful :
      (sent : Wire) (found : Option Object)
      → (fetch repr transport c op sent).0 ≡ ok found
      → (header : String) × (earlier : Wire) × (response : Response) × ((fetch repr transport c op
            sent).1
          ≡ earlier ++ get_request c op header ∷ [])
        × (transport earlier (get_request c op header) ≡ answered response)
        × ((get_request c op header).url ≡ (put_request c op header).url)
        × Found response found
  unfolding get_request put_request
  fetch_faithful sent found e = elim (fetch-cases repr transport c op sent) [
    | inl (_, r) ↦ cc (r, e)
    | inr (inl (_, r)) ↦ cc (r, e)
    | inr (inr (header, _, r)) ↦
        let (response, there, what) = fetched-ok repr op _ found (sym (ap (λ x. x.0) r) ∙ e) in
        (header, sent ++ asking c op "GET" ∷ [], response, ap (λ x. x.1) r, there, refl, what)
  ]
