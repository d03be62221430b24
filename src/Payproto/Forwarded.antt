-- ===== src/Payproto/Forwarded.antt =====
-- A proxy payment of paynet/protos/payproto/: a node on the way takes a payment exactly when it makes the next.
use mathlib.Core.Path.{subst}
use fcr.Payproto.Receipts.{with_receipt, without, not_begun_ne}
use fcr.Base.{if◌then◌else◌, text_key}
use fcr.Payproto.{
  committed, not_begun, Calls, PayRequest, pay_for_others_final, pay_for_others_intermediate,
  Ending, PayResponse,
}
use fcr.Paymgr.Types.{PayOffer}
use fcr.Base.Int.{ℤ}
use fcr.Base.{
  Result, String, Option, ℕ, ◌≡◌, some, ok, true, none, ◌≢◌, arith, ◌==◌, Bool-cases, inl, inr, ◌⊎◌,
  >>=-eq-ok, Result-cases, refl, Option-cases, some-injective,
}
use fcr.Payproto.Handlers.{
  ProxyServices, Services, Handled, forward_payment, or_answer, Received, handle_proxy_pay,
  proxy_request, refuse, taken,
}
use fcr.Paychstate.{State}
use fcr.Payproto.Receipts.{
  HasReceipt, Ends, payment-Ends, for_others_final, for_others_intermediate,
}
use fcr.Paymgr.Inbound.{accepted}
use fcr.Payproto.Handled.{refuse-keeps, Receipt-cases, or_answer-ok}

-- The services of a node whose payments for others are those of the requesters.
abbrev pub paying :
    Calls
    → (PayOffer → ℤ → PayRequest → Result (String × Option PayOffer))
    → ProxyServices
    → ProxyServices
paying c pay x = record x {
  pay_final = λ offer gross q.
      pay_for_others_final c (pay offer gross q) offer q.original_amt q.original_addr
        q.original_secret;
  pay_intermediate = λ offer gross q.
      pay_for_others_intermediate c (pay offer gross q) offer q.original_amt q.original_addr
        q.original_secret;
}

-- The incoming payment is stored, the outgoing one committed, and the answer is a receipt of the one who is
-- paid in the end for the amount and the secret of the request.
pub record Forwarded (v : Services) (c : Calls) (q : PayRequest) (offer : PayOffer) (h : Handled)
    (e : Ending) : Type 0 where
  pub gross : ℤ
  pub new_state : State
  pub receipt : ℕ × String
  pub body : String
  pub from_voucher : v.receive q.voucher ≡ accepted gross new_state
  pub stores : h.stored ≡ some new_state
  pub commits : e ≡ committed
  pub signed : HasReceipt c q.original_amt q.original_secret offer.dest_addr receipt
  pub encoded :
      v.marshal_response (record { network_loss = ""; sig_type = receipt.0; signature = receipt.1 })
      ≡ ok body
  pub responds : h.response ≡ some (true, body)

abbrev pub Stopped : Handled → Ending → Type 0
Stopped h e = (h.stored ≡ none) × (e ≢ committed)

-- Either branch of the choice between the two payments.
paid-Ends :
    (c : Calls) (pay : PayOffer → ℤ → PayRequest → Result (String × Option PayOffer))
    (x : ProxyServices) (offer : PayOffer) (gross : ℤ) (q : PayRequest)
    → Ends c
        (λ s. s ≡ q.original_secret)
        q.original_amt
        offer.dest_addr
        (if offer.dest_addr == offer.res_to
          then (paying c pay x).pay_final offer gross q
          else (paying c pay x).pay_intermediate offer gross q)
paid-Ends c pay x offer gross q = elim (Bool-cases (offer.dest_addr == offer.res_to)) [
  | inl t ↦ rw t (
      payment-Ends c (pay offer gross q)
        (for_others_final offer q.original_amt q.original_addr q.original_secret))
  | inr t ↦ rw t (
      payment-Ends c (pay offer gross q)
        (for_others_intermediate offer q.original_amt q.original_addr q.original_secret))
]

forward-cases :
    (v : Services) (c : Calls) (pay : PayOffer → ℤ → PayRequest → Result (String × Option PayOffer))
    (x : ProxyServices) (offer : PayOffer) (gross : ℤ) (q : PayRequest)
    → ((r : PayResponse) → (b : String) × (v.marshal_response r ≡ ok b))
    → ((s : ℕ × String) × (b : String) × ((forward_payment v (paying c pay x) offer gross q).result
          ≡ ok b)
        × ((forward_payment v (paying c pay x) offer gross q).ending ≡ committed)
        × HasReceipt c q.original_amt q.original_secret offer.dest_addr s
        × (v.marshal_response (record { network_loss = ""; sig_type = s.0; signature = s.1 })
            ≡ ok b))
      ⊎ (((b : String) → (forward_payment v (paying c pay x) offer gross q).result ≢ ok b)
          × ((forward_payment v (paying c pay x) offer gross q).ending ≢ committed))
unfolding forward_payment
forward-cases v c pay x offer gross q json = elim (paid-Ends c pay x offer gross q) [
  | with_receipt secret s own result ending signed ↦
      let (b, m) = json (record { network_loss = ""; sig_type = s.0; signature = s.1 }) in
      inl (s, b, rw (result, m), ending, rw (← own) signed, m)
  | without fails kept ↦ inr (
    λ b e.
        let (s, f, e₁) = >>=-eq-ok (or_answer _ "Proxy payment error") _ e in
        absurd (fails s (or_answer-ok _ _ f)),
    kept,
  )
]

abbrev Ended :
    Services → Calls → Result (PayRequest × PayOffer) → Received → Handled × Ending → Type 0
Ended v c r received z =
    (((q : PayRequest) × (offer : PayOffer) × (r ≡ ok (q, offer)) × Forwarded v c q offer z.0 z.1)
      ⊎ Stopped z.0 z.1)
    × (z.0.received ≡ received)

refused_ends :
    (v : Services) (c : Calls) (x : ProxyServices) (cur : ℕ) (received : Received) (loss : String)
    {z : Handled × Ending}
    → elim (refuse v loss received) [ none ↦ none | some h ↦ some (h, not_begun) ] ≡ some z
    → Ended v c (proxy_request v x cur) received z
refused_ends v c x cur received loss {z} e = elim (Option-cases (refuse v loss received)) [
  | inl g ↦ let gone : none ≡ some z = rw g at e in absurd (ground arith)
  | inr (h, g) ↦
      let left = refuse-keeps v loss received g in
      let same : (h, not_begun) ≡ z = some-injective (rw g at e) in
      subst (Ended v c (proxy_request v x cur) received) same (inr (left.0, not_begun_ne), left.1)
]

taken_ends :
    (v : Services) (c : Calls) (pay : PayOffer → ℤ → PayRequest → Result (String × Option PayOffer))
    (x : ProxyServices) (cur : ℕ) (received : Received)
    → ((r : PayResponse) → (b : String) × (v.marshal_response r ≡ ok b))
    → (q : PayRequest) (offer : PayOffer) (gross : ℤ) (s : State) {z : Handled × Ending}
    → proxy_request v (paying c pay x) cur ≡ ok (q, offer)
    → v.receive q.voucher ≡ accepted gross s
    → taken v (paying c pay x) offer gross s q received ≡ some z
    → Ended v c (proxy_request v (paying c pay x) cur) received z
unfolding taken
taken_ends v c pay x cur received json q offer gross s {z} f r k =
    let x' = paying c pay x in
    let next = forward_payment v x' offer gross q in
    let End : Handled × Ending → Type 0 = Ended v c (proxy_request v x' cur) received in
    elim (forward-cases v c pay x offer gross q json) [
      | inl (receipt, b, result, ending, signed, encoded) ↦
          subst End (some-injective (rw (taken, result) at k)) (
            inl (
              q,
              offer,
              f,
              record {
                gross = gross;
                new_state = s;
                receipt = receipt;
                body = b;
                from_voucher = r;
                stores = refl;
                commits = ending;
                signed = signed;
                encoded = encoded;
                responds = refl;
              },
            ),
            refl,
          )
      | inr (fails, kept) ↦ elim (Result-cases next.result) [
        | inl (b, g) ↦ absurd (fails b g)
        | inr (inl (y, g)) ↦
            subst End (some-injective (rw (taken, g) at k)) (inr (refl, kept), refl)
        | inr (inr g) ↦ let gone : none ≡ some z = rw (taken, g) at k in absurd (ground arith)
      ]
    ]

-- Where the payments for others are those of the requesters, and JSON encodes every response: a handler of a
-- proxy payment either takes the payment and commits the one to the next node, and answers with the receipt of
-- the one who is paid in the end, for the amount and the secret of the request; or it does neither of the
-- two. The amounts received stay as they are.
pub handle_proxy_pay_ends :
    (v : Services) (c : Calls) (pay : PayOffer → ℤ → PayRequest → Result (String × Option PayOffer))
    (x : ProxyServices) (cur : ℕ) (received : Received) {h : Handled} {e : Ending}
    → ((r : PayResponse) → (b : String) × (v.marshal_response r ≡ ok b))
    → handle_proxy_pay v (paying c pay x) cur received ≡ some (h, e)
    → (((q : PayRequest) × (offer : PayOffer) × (proxy_request v (paying c pay x) cur
            ≡ ok (q, offer))
          × Forwarded v c q offer h e)
        ⊎ Stopped h e)
      × (h.received ≡ received)
unfolding handle_proxy_pay
handle_proxy_pay_ends v c pay x cur received {h} {e} json k =
    let x' = paying c pay x in
    let End : Handled × Ending → Type 0 = Ended v c (proxy_request v x' cur) received in
    elim (Result-cases v.request_in) [
      | inr (inr g) ↦ absurd (ground arith)
      | inr (inl (y, g)) ↦
          subst End (some-injective (rw (handle_proxy_pay, g) at k))
            (inr (refl, not_begun_ne), refl)
      | inl (u, g) ↦ elim (Result-cases (proxy_request v x' cur)) [
        | inr (inr f) ↦
            let gone : none ≡ some (h, e) = rw (handle_proxy_pay, g, f) at k in
            absurd (ground arith)
        | inr (inl (y, f)) ↦
            subst End (some-injective (rw (handle_proxy_pay, g, f) at k))
              (inr (refl, not_begun_ne), refl)
        | inl ((q, offer), f) ↦ elim (Receipt-cases (v.receive q.voucher)) [
          | inr (inr r) ↦
              let gone : none ≡ some (h, e) = rw (handle_proxy_pay, g, f, r) at k in
              absurd (ground arith)
          | inr (inl (loss, r)) ↦
              refused_ends v c x' cur received loss (rw (handle_proxy_pay, g, f, r) at k)
          | inl (gross, s, r) ↦
              taken_ends v c pay x cur received json q offer gross s f r
                (rw (handle_proxy_pay, g, f, r) at k)
        ]
      ]
    ]
