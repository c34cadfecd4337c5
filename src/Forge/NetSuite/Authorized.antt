-- ===== src/Forge/NetSuite/Authorized.antt =====
-- Nothing reaches NetSuite that Vault has not signed, whatever the transport answers.
use mathlib.Core.List.{append_assoc, append-nil}
use cavi_erp.Prelude.{
  ◌≡◌, ◌≢◌, ◌⊎◌, refl, inl, inr, String, Bool, true, false, Bool-cases, Option, none, some, List,
  [], ◌∷◌, ◌++◌, arith, nonempty, if◌then◌else◌, ◌==◌, string_eq, nat_eq, eq_iff, eqb_iff,
}
use cavi_erp.Dict.{get}
use cavi_erp.Json.{Value, Object, null, bool, int, str, arr, obj, to_dict, truthy}
use cavi_erp.Error.{Error, ok, err}
use cavi_erp.Forge.Write.{WriteOperation}
use cavi_erp.Forge.NetSuite.{
  Request, Response, Reply, answered, http_error, Wire, Transport, Client, addressable, signature,
  header_of, header_in,
}
use cavi_erp.Forge.NetSuite.Session.{put_request, get_request, apply, fetch}
use cavi_erp.Forge.NetSuite.Sending.{asking, apply-cases, fetch-cases}

-- `P` of each request and all that was sent before it.
abbrev pub EachAfter : (Wire → Request → Type 0) → Wire → Wire → Type 0
EachAfter P before [] = Unit
EachAfter P before (r ∷ rs) = P before r × EachAfter P (before ++ r ∷ []) rs

EachAfter-snoc :
    (P : Wire → Request → Type 0) (before sent : Wire) (r : Request)
    → EachAfter P before sent
    → P (before ++ sent) r
    → EachAfter P before (sent ++ r ∷ [])
EachAfter-snoc P before [] r each last = (rw append-nil at last, tt)
EachAfter-snoc P before (x ∷ sent) r (here, each) last =
    (here, EachAfter-snoc P (before ++ x ∷ []) sent r each (rw append_assoc last))

-- The write says which record it is about: a create names none, an update names one.
abbrev pub IsAddressable : WriteOperation → Type 0
IsAddressable op =
    ((op.operation ≡ "create") × (op.target_external_id ≡ none))
    ⊎ ((op.operation ≡ "update") × (target : String) × (op.target_external_id ≡ some target))

-- The answer to a request is a response with status 200 whose object gives this header.
abbrev pub Grants : Reply → String → Type 0
Grants reply header =
    (response : Response) × (reply ≡ answered response)
    × (response.status_code ≡ 200)
    × (body : Object) × (get "authorization_header" body ≡ some (str header))
    × (nonempty header ≡ true)

either_way : (b : Bool) {A : Type 0} (x y : Error) (a : A) → (if b then err x else err y) ≢ ok a
either_way true x y a e = cc
either_way false x y a e = cc

header_of_lem :
    (v : Option Value) (header : String)
    → header_of v ≡ ok header
    → (v ≡ some (str header)) × (nonempty header ≡ true)
header_of_lem none header e = cc
header_of_lem (some (str s)) header e = ground arith
header_of_lem (some null) header e = cc
header_of_lem (some (bool b)) header e = absurd (either_way (truthy (bool b)) _ _ header e)
header_of_lem (some (int n)) header e = absurd (either_way (truthy (int n)) _ _ header e)
header_of_lem (some (arr xs)) header e = absurd (either_way (truthy (arr xs)) _ _ header e)
header_of_lem (some (obj fs)) header e = absurd (either_way (truthy (obj fs)) _ _ header e)

header_in_lem :
    (v : Option Value) (header : String)
    → header_in v ≡ ok header
    → (body : Object) × (get "authorization_header" body ≡ some (str header))
      × (nonempty header ≡ true)
header_in_lem none header e = cc
header_in_lem (some (obj fs)) header e =
    let (there, given) = header_of_lem (get "authorization_header" (to_dict fs)) header e in
    (to_dict fs, there, given)
header_in_lem (some null) header e = cc
header_in_lem (some (bool b)) header e = cc
header_in_lem (some (int n)) header e = cc
header_in_lem (some (str s)) header e = cc
header_in_lem (some (arr xs)) header e = cc

signature-Grants :
    (repr : Value → String) (op : WriteOperation) (verb url : String) (reply : Reply)
    (header : String)
    → signature repr op verb url reply ≡ ok header
    → Grants reply header
unfolding signature
signature-Grants repr op verb url (http_error reason) header e = cc
signature-Grants repr op verb url (answered response) header e =
    elim (Bool-cases (response.status_code == 200)) [
      | inl granted ↦
          let (body, there, given) = header_in_lem response.body header (rw granted at e) in
          (response, refl, (eqb_iff response.status_code 200).0 granted, body, there, given)
      | inr refused ↦ cc (rw refused at e)
    ]

pub addressable-IsAddressable :
    (repr : Value → String) (op : WriteOperation) (target : Option String)
    → op.target_external_id ≡ target
    → addressable repr op target ≡ ok tt
    → IsAddressable op
unfolding addressable
addressable-IsAddressable repr op none named e =
    inl (ground (arith, eq_iff op.operation "create"), named)
addressable-IsAddressable repr op (some target) named e =
    inr (ground (arith, eq_iff op.operation "update"), target, named)

-- A request for a signature; or an upsert or a read that carries the header with which Vault granted
-- the request right before it, made for the same write, verb and URL.
module _ (transport : Transport) (c : Client) where
  abbrev pub Granted : WriteOperation → String → String → Wire → Type 0
  Granted op verb header before =
      (earlier : Wire) × (before ≡ earlier ++ asking c op verb ∷ [])
      × Grants (transport earlier (asking c op verb)) header

  abbrev pub IsSigned : Wire → Request → Type 0
  IsSigned before r =
      ((op : WriteOperation) × (verb : String) × (r ≡ asking c op verb))
      ⊎ (((op : WriteOperation) × (header : String) × IsAddressable op
            × Granted op "PUT" header before
            × (r ≡ put_request c op header))
          ⊎ ((op : WriteOperation) × (header : String) × Granted op "GET" header before
              × (r ≡ get_request c op header)))

-- The calls on a client.
pub data Call : Type 0 where
  applied fetched_by : WriteOperation → Call

module _ (repr : Value → String) (transport : Transport) (c : Client) where
  abbrev call : Call → Wire → Wire
  call (applied op) sent = (apply repr transport c op sent).1
  call (fetched_by op) sent = (fetch repr transport c op sent).1

  -- What has been sent after these calls, whether they raised or not.
  unfoldable pub calls : List Call → Wire → Wire
  calls [] sent = sent
  calls (d ∷ ds) sent = calls ds (call d sent)

  abbrev pub AllSigned : Wire → Type 0
  AllSigned = EachAfter (IsSigned transport c) []

  call-AllSigned : (d : Call) (sent : Wire) → AllSigned sent → AllSigned (call d sent)
  call-AllSigned (applied op) sent h = elim (apply-cases repr transport c op sent) [
    | inl (e, r) ↦ rw (call, r) h
    | inr ((set, fits), inl (e, r)) ↦
        rw (call, r) (EachAfter-snoc _ [] sent _ h (inl (op, "PUT", refl)))
    | inr ((set, fits), inr (header, signed, r)) ↦
        rw (call, r)
          (EachAfter-snoc _ [] (sent ++ asking c op "PUT" ∷ []) _
            (EachAfter-snoc _ [] sent _ h (inl (op, "PUT", refl)))
            (inr (
              inl (
                op,
                header,
                addressable-IsAddressable repr op _ refl fits,
                (sent, refl, signature-Grants repr op "PUT" _ _ header signed),
                refl,
              ))))
  ]
  call-AllSigned (fetched_by op) sent h = elim (fetch-cases repr transport c op sent) [
    | inl (e, r) ↦ rw (call, r) h
    | inr (inl (e, r)) ↦ rw (call, r) (EachAfter-snoc _ [] sent _ h (inl (op, "GET", refl)))
    | inr (inr (header, signed, r)) ↦
        rw (call, r)
          (EachAfter-snoc _ [] (sent ++ asking c op "GET" ∷ []) _
            (EachAfter-snoc _ [] sent _ h (inl (op, "GET", refl)))
            (inr (
              inr (
                op,
                header,
                (sent, refl, signature-Grants repr op "GET" _ _ header signed),
                refl,
              ))))
  ]

  -- Whatever the transport answers and whatever writes the client is asked to apply or fetch, each
  -- request that it has sent asks Vault for a signature, or carries, as its Authorization, the
  -- non-empty header with which Vault answered, with status 200, the request sent right before it,
  -- which asked for the tenant and platform of the same write, the same verb and the same URL; and an
  -- upsert is for a create that names no record or an update that names one.
  pub calls-AllSigned : (ds : List Call) (sent : Wire) → AllSigned sent → AllSigned (calls ds sent)
  unfolding calls
  calls-AllSigned [] sent h = h
  calls-AllSigned (d ∷ ds) sent h = calls-AllSigned ds (call d sent) (call-AllSigned d sent h)
