-- ===== src/Payproto/Handlers.antt =====
-- The handlers of a payment request, paynet/protos/payproto/handlers.go.
use fcr.Base.{if◌then◌else◌, not, nat_eq}
use fcr.Paymgr.Inbound.{Receipt, accepted, refused, crashed}
use fcr.Paychstate.{State}
use fcr.Base.Map.{Map, lookup, insert}
use fcr.Payproto.{Outcome, PayRequest, PayResponse, Ending, not_begun}
use fcr.Base.{
  ◌>>=◌, ◌>>◌, Result, String, Bool, ℕ, Option, some, none, panic, err, ok, fail_if, ◌==◌, false,
  true, nat_key, text_key,
}
use fcr.Base.Int.{ℤ, ◌+ℤ◌, ltb_ℤ}
use fcr.Base.Nested.{or_empty}
use fcr.Paymgr.Types.{PayOffer}

-- What a handler asks of the rest of the node.
pub record Services : Type 0 where
  pub request_in : Result (Unit {0})
  pub receive_data : Result String
  pub has_peer : Result Bool
  pub is_blocked : Result Bool
  pub add_peer : Result (Unit {0})
  pub unmarshal_request : String → Result PayRequest
  pub marshal_response : PayResponse → Result String
  pub receipt_data : ℤ → String → String
  pub receive : String → Receipt
  pub sign : String → Result (ℕ × String)
  pub lock_received : Result (Unit {0})

-- `received`: how much each original payer has paid in each currency.
abbrev pub Received : Type 0
Received = Map ℕ (Map String ℤ)

-- How a request ends: the response, if there is a request to respond to; the state of the channel that
-- payMgr has written, if it has; and the amounts received.
pub record Handled : Type 0 where
  pub response : Option (Bool × String)
  pub stored : Option State
  pub received : Received

abbrev pub answer : Bool → String → Received → Handled
answer status body received = record {
  response = some (status, body);
  stored = none;
  received = received;
}

-- A check that answers with the text `e` where it fails.
abbrev pub or_answer {ℓ} : {A : Type ℓ} → Result A → String → Result A
or_answer panic e = panic
or_answer (err e') e = err e
or_answer (ok a) e = ok a

-- A peer that is not known is added.
unfoldable pub admit_peer : Services → Result (Unit {0})
admit_peer v = do
  exists ← or_answer v.has_peer "Internal error"
  (if exists
      then or_answer v.is_blocked "Internal error"
        >>= (λ blocked. fail_if blocked "Peer is blocked")
      else or_answer v.add_peer "Internal error")

unfoldable pub credit : ℕ → String → ℤ → Received → Received
credit cur addr amt m =
    let amounts = or_empty (lookup cur m) in
    insert cur
      (insert addr (elim (lookup addr amounts) [ none ↦ amt | some old ↦ old +ℤ amt ]) amounts) m

-- The receipt for the payer, from its signature.
unfoldable pub sign_receipt : Services → PayRequest → Result String
sign_receipt v q = do
  s ← or_answer (v.sign (v.receipt_data q.original_amt q.original_secret)) "Internal error"
  or_answer (v.marshal_response (record { network_loss = ""; sig_type = s.0; signature = s.1 }))
      "Internal error"

-- What is answered where payMgr.Receive refuses: its voucher if it gives one. Receive then returns no
-- function to revert with.
unfoldable pub refuse : Services → String → Received → Option Handled
refuse v loss received =
    if loss == ""
    then some (answer false "Internal error" received)
    else elim (v.marshal_response (record { network_loss = loss; sig_type = 0; signature = "" })) [
      | ok body ↦ some (answer true body received)
      | err e ↦ none
      | panic ↦ none
    ]

-- The part of a direct payment after payMgr.Receive.
unfoldable pub take_payment : Services → PayRequest → ℤ → Result String
take_payment v q gross = do
  fail_if (ltb_ℤ gross q.original_amt) "Amount not sufficient"
  body ← sign_receipt v q
  or_answer v.lock_received "Internal error"
  ok body

-- The request, of a peer that is not blocked.
unfoldable pub pay_request : Services → Result PayRequest
pay_request v = do
  raw ← or_answer v.receive_data ""
  admit_peer v
  or_answer (v.unmarshal_request raw) "Fail to decode request"

-- A handler that panics is none.
unfoldable pub handle_direct_pay : Services → ℕ → Received → Option Handled
handle_direct_pay v cur received = elim v.request_in [
  | panic ↦ none
  | err e ↦ some (record { response = none; stored = none; received = received })
  | ok _ ↦ elim (pay_request v) [
    | panic ↦ none
    | err e ↦ some (answer false e received)
    | ok q ↦ elim (v.receive q.voucher) [
      | crashed ↦ none
      | refused loss ↦ refuse v loss received
      | accepted gross state ↦ elim (take_payment v q gross) [
        | panic ↦ none
        | err e ↦ some (answer false e received)
        | ok body ↦ some (record {
          response = some (true, body);
          stored = some state;
          received = credit cur q.original_addr q.original_amt received;
        })
      ]
    ]
  ]
]

-- What the handler of a proxy payment asks besides: `pay_final` and `pay_intermediate` are the payments of
-- the requesters, and `to_addr` the address that the request is to.
pub record ProxyServices : Type 0 where
  pub decode_offer : String → Result PayOffer
  pub to_be_signed : PayOffer → Result String
  pub verify_offer : PayOffer → String → Result (Unit {0})
  pub to_addr : String
  pub pay_final : PayOffer → ℤ → PayRequest → Outcome (ℕ × String)
  pub pay_intermediate : PayOffer → ℤ → PayRequest → Outcome (ℕ × String)

-- The offer of the request, which this node has to have signed.
unfoldable pub check_offer : ProxyServices → ℕ → PayRequest → Result PayOffer
check_offer x cur q = do
  offer ←
      or_answer (x.decode_offer (elim q.offer_data [ none ↦ "" | some d ↦ d ]))
        "Fail to decode offer"
  signed ← or_answer (x.to_be_signed offer) "Internal error"
  or_answer (x.verify_offer offer signed) "Offer fail to verify"
  fail_if (not (nat_eq offer.currency_id cur)) "offer currency id mismatch"
  fail_if (not (offer.src_addr == x.to_addr)) "offer src addr mismatch"
  ok offer

-- The next node is paid before this one is: its receipt is what goes back.
unfoldable pub forward_payment :
    Services → ProxyServices → PayOffer → ℤ → PayRequest → Outcome String
forward_payment v x offer gross q =
    let paid =
      if offer.dest_addr == offer.res_to
      then x.pay_final offer gross q
      else x.pay_intermediate offer gross q in
    record {
      result = or_answer paid.result "Proxy payment error" >>= (λ s.
          or_answer
            (v.marshal_response (record { network_loss = ""; sig_type = s.0; signature = s.1 }))
            "Internal error");
      ending = paid.ending;
      history = paid.history;
    }

unfoldable pub proxy_request : Services → ProxyServices → ℕ → Result (PayRequest × PayOffer)
proxy_request v x cur = do q ← pay_request v; offer ← check_offer x cur q; ok (q, offer)

-- An accepted voucher: the next node is paid, and the incoming payment is committed or reverted.
unfoldable pub taken :
    Services
    → ProxyServices
    → PayOffer
    → ℤ
    → State
    → PayRequest
    → Received
    → Option (Handled × Ending)
taken v x offer gross state q received =
    let next = forward_payment v x offer gross q in
    elim next.result [
      | panic ↦ none
      | err e ↦ some (answer false e received, next.ending)
      | ok body ↦ some (
        record { response = some (true, body); stored = some state; received = received },
        next.ending,
      )
    ]

-- The handler's end, and that of the payment to the next node.
unfoldable pub handle_proxy_pay :
    Services → ProxyServices → ℕ → Received → Option (Handled × Ending)
handle_proxy_pay v x cur received = elim v.request_in [
  | panic ↦ none
  | err e ↦ some (record { response = none; stored = none; received = received }, not_begun)
  | ok _ ↦ elim (proxy_request v x cur) [
    | panic ↦ none
    | err e ↦ some (answer false e received, not_begun)
    | ok (q, offer) ↦ elim (v.receive q.voucher) [
      | crashed ↦ none
      | refused loss ↦ elim (refuse v loss received) [ none ↦ none | some h ↦ some (h, not_begun) ]
      | accepted gross state ↦ taken v x offer gross state q received
    ]
  ]
]
