-- ===== src/Payproto/Examples.antt =====
-- The theorems on paynet/protos/payproto/ at work: "alice" pays two to "bob" over the channel "ch".
use fcr.Base.{if◌then◌else◌, ◌≢◌, ◌⊎◌, panic}
use fcr.Paymgr.Examples.{
  chain, start, payment, channel, channel-IsSound, info, pending, pays, offer,
}
use fcr.Payproto.{
  committed, reverted, PayRequest, PayResponse, Calls, pay_for_self, check_peer, connect, exchange,
  pay_for_others_final, pay_for_others_intermediate,
}
use fcr.Payproto.Receipts.{for_self, Ends, payment-Ends}
use fcr.Base.{
  Bool, ◌==◌, ◌&&◌, not, ◌≡◌, true, arith, text_key, nat_eq, nat_eq_iff, none, ok, false, err, ◌∷◌,
  [], Option, Result, String, some, fail_if, refl, Bool-cases, inl, ok-injective, ap, sym, inr,
}
use fcr.Base.Int.{eqb_ℤ, ℤ, pos, ◌-ℤ◌, ◌≤ℤ◌}
use fcr.Base.Map.{is_some}
use fcr.Payproto.Handlers.{
  Services, Handled, handle_direct_pay, pay_request, admit_peer, take_payment, sign_receipt, credit,
  refuse, ProxyServices, handle_proxy_pay, proxy_request, check_offer, forward_payment, taken,
}
use fcr.Paychstate.{State}
use fcr.Base.Nested.{Nested, find_channel, peer_map}
use fcr.Payproto.Direct.{Link, payee, payer_commits_after_payee}
use fcr.Paymgr.Receiving.{InSync}
use fcr.Paymgr.Outbound.{pay_commit, pay_attempt, pay_revert}
use fcr.Paymgr.Inbound.{
  receive_check, receive_attempt, covering_balance, received_state, refused, accepted, receive,
}
use fcr.Paymgr.Types.{CachedPaychState, PayOffer}
use fcr.Paymgr.Channels.{bear_loss}
use fcr.Payproto.Loss.{lost_receipt_heals}
use fcr.Payproto.Handled.{Took, Left, handle_direct_pay_ends}
use fcr.Payproto.Forwarded.{Forwarded, Stopped, handle_proxy_pay_ends, paying}

request_eq : PayRequest → PayRequest → Bool
request_eq q r =
    (q.original_addr == r.original_addr)
    && (q.original_secret == r.original_secret)
    && eqb_ℤ q.original_amt r.original_amt
    && not (is_some q.offer_data)
    && not (is_some r.offer_data)
    && (q.voucher == r.voucher)

eqb_ℤ-eq : (a b : ℤ) → eqb_ℤ a b ≡ true → a ≡ b
eqb_ℤ-eq a b e = ground arith

request_eq-eq : (q r : PayRequest) → request_eq q r ≡ true → q ≡ r
unfolding request_eq
request_eq-eq q r e = ground (
  arith,
  text_key.beq_iff q.original_addr r.original_addr,
  text_key.beq_iff q.original_secret r.original_secret,
  eqb_ℤ-eq q.original_amt r.original_amt,
  text_key.beq_iff q.voucher r.voucher,
)

response_eq : PayResponse → PayResponse → Bool
response_eq q r =
    (q.network_loss == r.network_loss)
    && nat_eq q.sig_type r.sig_type
    && (q.signature == r.signature)

response_eq-eq : (q r : PayResponse) → response_eq q r ≡ true → q ≡ r
unfolding response_eq
response_eq-eq q r e = ground (
  arith,
  text_key.beq_iff q.network_loss r.network_loss,
  nat_eq_iff q.sig_type r.sig_type,
  text_key.beq_iff q.signature r.signature,
)

-- The request of this payment, and the two responses to it.
abbrev asked : PayRequest
asked = record {
  original_addr = "alice";
  original_secret = "s";
  original_amt = pos 2;
  offer_data = none;
  voucher = "v4";
}

abbrev receipt : PayResponse
receipt = record { network_loss = ""; sig_type = 1; signature = "bob signed" }

abbrev loss_shown : PayResponse
loss_shown = record { network_loss = "v4"; sig_type = 0; signature = "" }

abbrev services : Services
services = record {
  request_in = ok tt;
  receive_data = ok "";
  has_peer = ok true;
  is_blocked = ok false;
  add_peer = ok tt;
  unmarshal_request = λ d. if d == "request" then ok asked else err "unexpected";
  marshal_response = λ r.
      if response_eq r receipt
      then ok "receipt"
      else if response_eq r loss_shown
      then ok "loss"
      else err "unexpected";
  receipt_data = λ amt secret. secret;
  receive = λ voucher. refused "";
  sign = λ bytes. ok (1, "bob signed");
  lock_received = ok tt;
}

abbrev received : State
received = record start { redeemed = pos 17; nonce = 4; voucher = "v4"; state_nonce = 4 }

-- The payee's manager before the payment, and after it.
abbrev before : Nested State
before = (1, ("alice", ("ch", start) ∷ []) ∷ []) ∷ []

abbrev after : Nested State
after = (1, ("alice", ("ch", received) ∷ []) ∷ []) ∷ []

-- A network that delivers.
abbrev answer_of : Option Handled → Result (Bool × String)
answer_of none = err "no response"
answer_of (some h) = elim h.response [ none ↦ err "no response" | some r ↦ ok r ]

abbrev calls : Nested State → Calls
calls m = record {
  has_peer = ok true;
  is_blocked = ok false;
  connect_to_peer = ok tt;
  new_stream = ok tt;
  new_request_out = ok "alice";
  read_secret = ok "s";
  encode_offer = λ o. err "unexpected";
  marshal = λ q. if request_eq q asked then ok "request" else err "unexpected";
  send = λ d. ok tt;
  get_response = λ d. answer_of (handle_direct_pay (payee services chain 1 m d) 1 []);
  unmarshal = λ b.
      if b == "receipt"
      then ok receipt
      else if b == "loss"
      then ok loss_shown
      else err "unexpected";
  receipt_data = λ amt secret. secret;
  verify = λ bytes type signature addr.
      fail_if (not (signature == "bob signed")) "signature fails to verify";
}

answer_of-some :
    (o : Option Handled) {r : Bool × String}
    → answer_of o ≡ ok r
    → (h : Handled) × (o ≡ some h) × (h.response ≡ some r)
answer_of-some none e = cc
answer_of-some (some h) e = (h, refl, ground arith)

connected : (m : Nested State) → Link (calls m) services chain 1 m []
connected m = record {
  delivers = λ d r e. answer_of-some (handle_direct_pay (payee services chain 1 m d) 1 []) e;
  reads_request = λ q d e. elim (Bool-cases (request_eq q asked)) [
    | inl t ↦
        let eq : ◌≡◌ {A = String} "request" d = ok-injective (rw t at e) in
        rw (← eq) (ap (λ (x : PayRequest). ok x) (sym (request_eq-eq q asked t)))
    | inr t ↦ absurd (ground arith)
  ];
  reads_response = λ r b e. elim (Bool-cases (response_eq r receipt)) [
    | inl t ↦
        let eq : ◌≡◌ {A = String} "receipt" b = ok-injective (rw t at e) in
        rw (← eq) (ap (λ (x : PayResponse). ok x) (sym (response_eq-eq r receipt t)))
    | inr t ↦ elim (Bool-cases (response_eq r loss_shown)) [
      | inl u ↦
          let eq : ◌≡◌ {A = String} "loss" b = ok-injective (rw (t, u) at e) in
          rw (← eq) (ap (λ (x : PayResponse). ok x) (sym (response_eq-eq r loss_shown u)))
      | inr u ↦ absurd (ground arith)
    ]
  ];
}

payer_commits_after_payee_example :
    (request : String) × (h : Handled) × (s' : State) × (handle_direct_pay
        (payee services chain 1 before request)
        1
        []
      ≡ some h)
    × (h.stored ≡ some s')
    × InSync
        (pay_commit payment pending
          (pos 2)
          (pay_attempt chain (pos 1) (pos 1) payment channel).0).state
        s'
unfolding pay_for_self connect check_peer exchange handle_direct_pay pay_request admit_peer
    request_eq response_eq take_payment sign_receipt receive find_channel peer_map receive_check
    receive_attempt covering_balance received_state ◌-ℤ◌ credit
payer_commits_after_payee_example =
    payer_commits_after_payee (calls before) services chain chain (pos 1) (pos 1) (pos 2) payment
      channel start before [] info "bob" (connected before) channel-IsSound pays
      (record { redeemed = refl; nonce = refl; balance = omega arith }) (omega arith) (omega arith)
      refl refl refl refl refl refl

-- The receipt of the payment was lost, and "alice" pays again.
lost_receipt_heals_example :
    ((pay_for_self (calls after) (ok (pending.voucher, pending.offer)) "bob" (pos 2)).ending
      ≢ committed)
    × ((loss : String)
        → (pay_for_self (calls after) (ok (pending.voucher, pending.offer)) "bob" (pos 2)).ending
          ≡ reverted loss
        → (loss == "") ≡ false
        → (cs' : CachedPaychState) × (bear_loss chain 1
              (pay_revert chain payment loss (pay_attempt chain (pos 1) (pos 1) payment channel).0)
            ≡ ok cs')
          × InSync cs'.state received
          × (cs'.reservations ≡ []))
unfolding find_channel
lost_receipt_heals_example =
    lost_receipt_heals (calls after) services chain chain (pos 1) (pos 1) payment channel received
      after [] info info "bob" (connected after)
      (record {
        later = omega arith;
        more = omega arith;
        balance = omega arith;
        reads = refl;
        sender = refl;
        channel = refl;
        lane = refl;
        nonce = refl;
        redeemed = refl;
        written = refl;
      })
      pays (omega arith) refl refl refl refl

-- The second payment does end with the voucher of the first.
shows_loss :
    (pay_for_self (calls after) (ok (pending.voucher, pending.offer)) "bob" (pos 2)).ending
    ≡ reverted "v4"
unfolding pay_for_self connect check_peer exchange handle_direct_pay pay_request admit_peer refuse
    request_eq response_eq receive find_channel peer_map receive_check
shows_loss = refl

payment-Ends_example :
    Ends
      (calls before)
      (λ s. ok "s" ≡ ok s)
      (pos 2)
      "bob"
      (pay_for_self (calls before) (ok ("v4", none)) "bob" (pos 2))
payment-Ends_example = payment-Ends (calls before) (ok ("v4", none)) (for_self "bob" (pos 2))

-- Where the handler of "bob" accepts the voucher itself.
abbrev accepting : Services
accepting = record services {
  receive_data = ok "request";
  marshal_response = λ r. ok "receipt";
  receive = λ voucher. accepted (pos 7) received;
}

abbrev handled : Handled
handled = record {
  response = some (true, "receipt");
  stored = some received;
  received = (1, ("alice", pos 2) ∷ []) ∷ [];
}

handles : handle_direct_pay accepting 1 [] ≡ some handled
unfolding handle_direct_pay pay_request admit_peer take_payment sign_receipt credit
handles = refl

handle_direct_pay_ends_example :
    ((q : PayRequest) × (t : Took accepting q handled) × (pay_request accepting ≡ ok q)
      × (q.original_amt ≤ℤ t.gross)
      × (sign_receipt accepting q ≡ ok t.body)
      × (handled.received ≡ credit 1 q.original_addr q.original_amt []))
    ⊎ Left accepting [] handled
handle_direct_pay_ends_example = handle_direct_pay_ends accepting 1 [] handles

-- A node on the way to "carol", which the next node answers with a receipt.
abbrev forwarding : Calls
forwarding = record (calls before) {
  marshal = λ q. ok "request";
  encode_offer = λ o. ok "offer";
  get_response = λ d. ok (true, "receipt");
}

abbrev proxy : ProxyServices
proxy = record {
  decode_offer = λ d. ok offer;
  to_be_signed = λ o. ok "offer";
  verify_offer = λ o signed. ok tt;
  to_addr = offer.src_addr;
  pay_final = λ o gross q. record { result = panic; ending = committed; history = [] };
  pay_intermediate = λ o gross q. record { result = panic; ending = committed; history = [] };
}

abbrev paid_on : PayOffer → ℤ → PayRequest → Result (String × Option PayOffer)
paid_on o gross q = ok ("v9", some offer)

abbrev forwarded : Handled
forwarded = record { response = some (true, "receipt"); stored = some received; received = [] }

forwards :
    handle_proxy_pay accepting (paying forwarding paid_on proxy) 1 [] ≡ some (forwarded, committed)
unfolding handle_proxy_pay proxy_request pay_request admit_peer check_offer taken forward_payment
    pay_for_others_final pay_for_others_intermediate connect check_peer exchange
forwards = refl

handle_proxy_pay_ends_example :
    (((q : PayRequest) × (o : PayOffer) × (proxy_request accepting
            (paying forwarding paid_on proxy)
            1
          ≡ ok (q, o))
        × Forwarded accepting forwarding q o forwarded committed)
      ⊎ Stopped forwarded committed)
    × (forwarded.received ≡ [])
handle_proxy_pay_ends_example =
    handle_proxy_pay_ends accepting forwarding paid_on proxy 1 [] (λ r. ("receipt", refl)) forwards
