-- ===== src/Payproto/Handled.antt =====
-- The end of a request in paynet/protos/payproto/handlers.go: what is stored, what is answered.
use fcr.Base.{err, panic}
use fcr.Payproto.Handlers.{
  Services, Handled, Received, take_payment, sign_receipt, or_answer, handle_direct_pay,
  pay_request, refuse, credit, answer,
}
use fcr.Payproto.{PayRequest, PayResponse}
use fcr.Base.Int.{ℤ, ◌≤ℤ◌, ltb_ℤ, lt-cases}
use fcr.Paychstate.{State}
use fcr.Base.{
  String, ◌≡◌, some, true, none, arith, ok, >>=-eq-ok, fail_if, inl, inr, ◌⊎◌, refl, ℕ,
  Result-cases, false, some-injective, ap, sym, ◌==◌, Bool, Bool-cases, ◌∙◌, text_key, Option,
  Result,
}
use fcr.Paymgr.Inbound.{Receipt, accepted, refused, crashed}

pub or_answer-ok {ℓ} :
    {A : Type ℓ} {a : A} (r : Result A) (e : String) → or_answer r e ≡ ok a → r ≡ ok a
or_answer-ok panic e h = cc
or_answer-ok (err x) e h = cc
or_answer-ok (ok a) e h = h

-- A payment is taken: its state is stored, and the answer is a receipt for the amount of the request.
pub record Took (v : Services) (q : PayRequest) (h : Handled) : Type 0 where
  pub gross : ℤ
  pub new_state : State
  pub body : String
  pub from_voucher : v.receive q.voucher ≡ accepted gross new_state
  pub stores : h.stored ≡ some new_state
  pub responds : h.response ≡ some (true, body)

-- Nothing is stored, and the amounts received are as before; an answer that claims success shows the voucher
-- with which payMgr refused the one of the request.
pub record Left (v : Services) (received : Received) (h : Handled) : Type 0 where
  pub stores_none : h.stored ≡ none
  pub same_received : h.received ≡ received
  pub shows_loss :
      (body : String)
      → h.response ≡ some (true, body)
      → (q : PayRequest) × (loss : String) × (pay_request v ≡ ok q)
        × (v.receive q.voucher ≡ refused loss)
        × ((loss == "") ≡ false)
        × (v.marshal_response (record { network_loss = loss; sig_type = 0; signature = "" })
            ≡ ok body)

pub refuse-keeps :
    (v : Services) (loss : String) (received : Received) {h : Handled}
    → refuse v loss received ≡ some h
    → (h.stored ≡ none) × (h.received ≡ received)
unfolding refuse
refuse-keeps v loss received e = (ground arith, ground arith)

abbrev Response : Type 0
Response = Option (Bool × String)

true_body : {b c : String} → ◌≡◌ {A = Response} (some (true, b)) (some (true, c)) → b ≡ c
true_body e = ap (λ (x : Bool × String). x.1) (some-injective e)

no_true :
    {e body : String} {A : Type 0} → ◌≡◌ {A = Response} (some (false, e)) (some (true, body)) → A
no_true e =
    let b : false ≡ true = ap (λ (x : Bool × String). x.0) (some-injective e) in
    absurd (ground arith)

refuse-Left :
    (v : Services) (q : PayRequest) (loss : String) (received : Received) {h : Handled}
    → pay_request v ≡ ok q
    → v.receive q.voucher ≡ refused loss
    → refuse v loss received ≡ some h
    → Left v received h
unfolding refuse
refuse-Left v q loss received {h} f k e =
    let (kept, same) = refuse-keeps v loss received e in
    record {
      stores_none = kept;
      same_received = same;
      shows_loss = λ body g. elim (Bool-cases (loss == "")) [
        | inl t ↦
            let eq : answer false "Internal error" received ≡ h =
              some-injective (rw (refuse, t) at e) in
            no_true (ap (λ (y : Handled). y.response) eq ∙ g)
        | inr t ↦
            let r : PayResponse = record { network_loss = loss; sig_type = 0; signature = "" } in
            elim (Result-cases (v.marshal_response r)) [
              | inl (b, m) ↦
                  let eq : answer true b received ≡ h = some-injective (rw (refuse, t, m) at e) in
                  let same_body = true_body (ap (λ (y : Handled). y.response) eq ∙ g) in
                  (q, loss, f, k, t, rw (← same_body) m)
              | inr (inl (x, m)) ↦
                  let gone : none ≡ some h = rw (refuse, t, m) at e in absurd (ground arith)
              | inr (inr m) ↦
                  let gone : none ≡ some h = rw (refuse, t, m) at e in absurd (ground arith)
            ]
      ];
    }

failed-Left :
    (v : Services) (e : String) (received : Received) {h : Handled}
    → answer false e received ≡ h
    → Left v received h
failed-Left v e received same = record {
  stores_none = ap (λ (y : Handled). y.stored) (sym same);
  same_received = ap (λ (y : Handled). y.received) (sym same);
  shows_loss = λ body g. no_true (ap (λ (y : Handled). y.response) same ∙ g);
}

take_payment-covers :
    (v : Services) (q : PayRequest) (gross : ℤ) {body : String}
    → take_payment v q gross ≡ ok body
    → (q.original_amt ≤ℤ gross) × (sign_receipt v q ≡ ok body)
unfolding take_payment
take_payment-covers v q gross {body} e =
    let (u, f, e₁) = >>=-eq-ok (fail_if (ltb_ℤ gross q.original_amt) "Amount not sufficient") _ e in
    let (b, g, e₂) = >>=-eq-ok (sign_receipt v q) _ e₁ in
    let (w, k, e₃) = >>=-eq-ok (or_answer v.lock_received "Internal error") _ e₂ in
    (
      elim (lt-cases gross q.original_amt) [
        | inl (t, l) ↦ absurd (cc (rw t at f))
        | inr (t, l) ↦ l
      ],
      rw g e₃,
    )

pub Receipt-cases :
    (r : Receipt)
    → ((g : ℤ) × (s : State) × (r ≡ accepted g s))
      ⊎ (((loss : String) × (r ≡ refused loss)) ⊎ (r ≡ crashed))
Receipt-cases (accepted g s) = inl (g, s, refl)
Receipt-cases (refused loss) = inr (inl (loss, refl))
Receipt-cases crashed = inr (inr refl)

-- A handler of a direct payment either takes the payment: the voucher is accepted for at least the amount of
-- the request, its state is stored, the answer is the receipt that it signed, and the amount is added to what
-- the original payer has paid; or it leaves the channel and the amounts received as they
-- were, and an answer that claims success then carries the voucher with which payMgr refused.
pub handle_direct_pay_ends :
    (v : Services) (cur : ℕ) (received : Received) {h : Handled}
    → handle_direct_pay v cur received ≡ some h
    → ((q : PayRequest) × (t : Took v q h) × (pay_request v ≡ ok q)
        × (q.original_amt ≤ℤ t.gross)
        × (sign_receipt v q ≡ ok t.body)
        × (h.received ≡ credit cur q.original_addr q.original_amt received))
      ⊎ Left v received h
unfolding handle_direct_pay
handle_direct_pay_ends v cur received {h} e = elim (Result-cases v.request_in) [
  | inr (inr g) ↦ absurd (ground arith)
  | inr (inl (x, g)) ↦
      let same = some-injective (rw (handle_direct_pay, g) at e) in
      inr (record {
        stores_none = ap (λ (y : Handled). y.stored) (sym same);
        same_received = ap (λ (y : Handled). y.received) (sym same);
        shows_loss = λ body r.
            let none_sent : none ≡ some (true, body) = ap (λ (y : Handled). y.response) same ∙ r in
            absurd (ground arith);
      })
  | inl (u, g) ↦ elim (Result-cases (pay_request v)) [
    | inr (inr f) ↦ absurd (ground arith)
    | inr (inl (x, f)) ↦
        inr (failed-Left v x received (some-injective (rw (handle_direct_pay, g, f) at e)))
    | inl (q, f) ↦ elim (Receipt-cases (v.receive q.voucher)) [
      | inr (inr k) ↦
          let gone : none ≡ some h = rw (handle_direct_pay, g, f, k) at e in absurd (ground arith)
      | inr (inl (loss, k)) ↦
          inr (refuse-Left v q loss received f k (rw (handle_direct_pay, g, f, k) at e))
      | inl (gross, s, k) ↦ elim (Result-cases (take_payment v q gross)) [
        | inr (inr j) ↦
            let gone : none ≡ some h = rw (handle_direct_pay, g, f, k, j) at e in
            absurd (ground arith)
        | inr (inl (x, j)) ↦
            inr
              (failed-Left v x received (some-injective (rw (handle_direct_pay, g, f, k, j) at e)))
        | inl (body, j) ↦
            let same = some-injective (rw (handle_direct_pay, g, f, k, j) at e) in
            let (covers, signed) = take_payment-covers v q gross j in
            inl (
              q,
              record {
                gross = gross;
                new_state = s;
                body = body;
                from_voucher = k;
                stores = ap (λ (y : Handled). y.stored) (sym same);
                responds = ap (λ (y : Handled). y.response) (sym same);
              },
              f,
              covers,
              signed,
              ap (λ (y : Handled). y.received) (sym same),
            )
      ]
    ]
  ]
]
