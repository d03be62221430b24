-- ===== src/Offerproto/Handlers.antt =====
-- The handler of an offer query, paynet/protos/offerproto/handlers.go. The record that it adds to the
-- history of the peer in a goroutine is not modelled.
use fcr.Base.{
  String, ℕ, Bool, Result, Option, List, [], ◌∷◌, ok, err, panic, some, none, not, true, false,
  fail_if, ◌>>=◌, ◌>>◌, text_key, ◌==◌, if◌then◌else◌, ltb,
}
use fcr.Base.Int.{ℤ, ◌+ℤ◌}
use fcr.Paymgr.Types.{PayOffer, Time}
use fcr.Payproto.Handlers.{or_answer}
use fcr.Fcroffer
use fcr.Fcroffer.{Json}
use fcr.Routestore.Table.{length}
use fcr.Offerproto.{end_of}

-- What ReserveForOthersFinal and ReserveForOthersIntermediate return: the price, the channel and the id.
pub record Reserved : Type 0 where
  pub ppp : ℤ
  pub period : ℤ
  pub res_ch : String
  pub res_id : ℕ

-- What the handler asks of the rest of the node; `query_next` is the node's own QueryOffer.
pub record OfferServices : Type 0 where
  pub json : Json
  pub request_in : Result (ℕ × String × String)  -- currency id, from and to
  pub receive_data : Result String
  pub has_peer : Result Bool
  pub is_blocked : Result Bool
  pub add_peer : Result (Unit {0})
  pub unmarshal_query : String → Result (List String × ℤ)
  pub max_hop : ℕ → Result ℕ
  pub list_servings : ℕ → String → Result Bool  -- whether there is one
  pub get_nonce : Result ℕ
  pub now : Time
  pub offer_expiry : Time
  pub offer_inactivity : Time
  pub reserve_final : ℕ → String → ℤ → Time → Time → String → Result Reserved
  pub query_next : ℕ → List String → ℤ → Result PayOffer
  pub reserve_intermediate : PayOffer → String → Result Reserved
  pub sign : ℕ → String → Result (ℕ × List ℕ)

-- The response, if there is a request to respond to, and what has been reserved for it.
pub record HandledQuery : Type 0 where
  pub response : Option (Bool × String)
  pub reserved : Option Reserved

unfoldable pub admit_asker : OfferServices → Result (Unit {0})
admit_asker v = do
  exists ← or_answer v.has_peer "Internal error"
  (if exists
      then or_answer v.is_blocked "Internal error"
        >>= (λ blocked. fail_if blocked "Peer is blocked")
      else or_answer v.add_peer "Internal error")

-- The route and the amount of a request, and the nonce of its offer.
pub record Asked : Type 0 where
  pub next : String
  pub rest : List String
  pub amt : ℤ
  pub nonce : ℕ

-- The checks on the route.
unfoldable pub check_route : OfferServices → ℕ → String → List String × ℤ → Result Asked
check_route v cur to_addr ([], amt) = err "Route must be at least 2 in length"
check_route v cur to_addr (only ∷ [], amt) = err "Route must be at least 2 in length"
check_route v cur to_addr (first ∷ next ∷ rest, amt) = do
  max ← or_answer (v.max_hop cur) "Internal error"
  fail_if (ltb max (length (first ∷ next ∷ rest))) "Route too long, not supported"
  fail_if (not (first == to_addr)) "Invalid route received"
  served ← or_answer (v.list_servings cur next) "Internal error"
  fail_if (not served) "No active serving found for route"
  nonce ← or_answer v.get_nonce "Internal error"
  ok (record { next = next; rest = rest; amt = amt; nonce = nonce })

unfoldable pub read_query : OfferServices → ℕ → String → Result Asked
read_query v cur to_addr = do
  raw ← or_answer v.receive_data ""
  admit_asker v
  q ← or_answer (v.unmarshal_query raw) "Fail to decode request"
  check_route v cur to_addr q

-- The last node before the recipient reserves for the amount, one on the way by the next node's offer.
unfoldable pub reserve_for : OfferServices → ℕ → String → Asked → Result Reserved
reserve_for v cur from_addr q = elim q.rest [
  | [] ↦
      or_answer
        (v.reserve_final cur q.next q.amt (v.now +ℤ v.offer_expiry) v.offer_inactivity from_addr)
        "Internal error"
  | _ ∷ _ ↦ do
    o ←
        or_answer (v.query_next cur (q.next ∷ q.rest) q.amt)
          "Error query offer from next node in route"
    or_answer (v.reserve_intermediate o from_addr) "Internal error"
]

-- The offer before it is signed.
unfoldable pub make_offer : OfferServices → ℕ → String → Asked → Reserved → PayOffer
make_offer v cur to_addr q r = record {
  currency_id = cur;
  src_addr = to_addr;
  dest_addr = end_of q.next q.rest;
  ppp = r.ppp;
  period = r.period;
  amt = q.amt;
  expiration = v.now +ℤ v.offer_expiry;
  inactivity = v.offer_inactivity;
  res_to = q.next;
  res_ch = r.res_ch;
  res_id = r.res_id;
  nonce = q.nonce;
  signature_type = 0;
  signature = [];
}

unfoldable pub sign_offer : OfferServices → ℕ → PayOffer → Result String
sign_offer v cur o = do
  raw ← or_answer (Fcroffer.to_be_signed v.json o) "Internal error"
  s ← or_answer (v.sign cur raw) "Internal error"
  or_answer (Fcroffer.encode v.json (Fcroffer.add_signature s.0 s.1 o)) "Internal error"

-- A handler that panics is none.
unfoldable pub handle_query_offer : OfferServices → Option HandledQuery
handle_query_offer v = elim v.request_in [
  | panic ↦ none
  | err e ↦ some (record { response = none; reserved = none })
  | ok (cur, from_addr, to_addr) ↦ elim (read_query v cur to_addr) [
    | panic ↦ none
    | err e ↦ some (record { response = some (false, e); reserved = none })
    | ok q ↦ elim (reserve_for v cur from_addr q) [
      | panic ↦ none
      | err e ↦ some (record { response = some (false, e); reserved = none })
      | ok r ↦ elim (sign_offer v cur (make_offer v cur to_addr q r)) [
        | panic ↦ none
        | err e ↦ some (record { response = some (false, e); reserved = some r })
        | ok body ↦ some (record { response = some (true, body); reserved = some r })
      ]
    ]
  ]
]
