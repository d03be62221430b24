-- ===== src/Payproto/Direct.antt =====
-- A direct payment of paynet/protos/payproto/ as a whole, on the two managers of paymgr/ that make and
-- receive it.
use fcr.Paymgr.Inbound.{crashed}
use fcr.Payproto.{Calls, PayRequest, PayResponse, pay_for_self, committed}
use fcr.Payproto.Handlers.{
  Services, Received, Handled, handle_direct_pay, or_answer, pay_request, admit_peer,
}
use fcr.Paymgr.Types.{Transactor, VoucherInfo, Time, CachedPaychState, PayOffer}
use fcr.Base.{
  ℕ, String, ok, Bool, ◌≡◌, some, >>=-eq-ok, none, nat_eq, true, arith, Option-cases, inl, inr, ap,
  sym, ◌∙◌, ◌+◌, ◌<◌, ◌^◌, ok-injective, Option, refl,
}
use fcr.Base.Nested.{Nested, find_channel, find_channel-peer_map}
use fcr.Paychstate.{State}
use fcr.Paymgr.Inbound.{
  receive_check, receive_attempt, receive, Receipt, received_state, accepted, refused,
}
use fcr.Payproto.Handled.{or_answer-ok, handle_direct_pay_ends}
use fcr.Base.Int.{ℤ, ◌≤ℤ◌, ◌-ℤ◌}
use fcr.Paymgr.Outbound.{Pending, pay_attempt, pay_commit, Payment}
use fcr.Paymgr.Sound.{IsSound}
use fcr.Paymgr.Receiving.{InSync, voucher_accepted}
use fcr.Payproto.Traces.{pay_for_self-Asked}

-- The payee's services for one request: Receive is that of its manager, which nothing else changes between its
-- two locks.
abbrev pub payee : Services → Transactor → ℕ → Nested State → String → Services
payee v chain cur m request = record v {
  receive_data = ok request;
  receive = λ voucher. receive chain chain cur voucher m m;
}

-- The network between the two loses messages but makes none up, and JSON reads back what it writes.
pub record Link (c : Calls) (v : Services) (chain : Transactor) (cur : ℕ) (m : Nested State)
    (received : Received) : Type 0 where
  pub delivers :
      (request : String) (response : Bool × String)
      → c.get_response request ≡ ok response
      → (h : Handled) × (handle_direct_pay (payee v chain cur m request) cur received ≡ some h)
        × (h.response ≡ some response)
  pub reads_request :
      (q : PayRequest) (d : String) → c.marshal q ≡ ok d → v.unmarshal_request d ≡ ok q
  pub reads_response :
      (r : PayResponse) (b : String) → v.marshal_response r ≡ ok b → c.unmarshal b ≡ ok r

pay_request-unmarshal :
    (v : Services) {q : PayRequest}
    → pay_request v ≡ ok q
    → (raw : String) × (v.receive_data ≡ ok raw) × (v.unmarshal_request raw ≡ ok q)
unfolding pay_request
pay_request-unmarshal v e =
    let (raw, f, e₁) = >>=-eq-ok (or_answer v.receive_data "") _ e in
    let (u, g, e₂) = >>=-eq-ok (admit_peer v) _ e₁ in (raw, or_answer-ok _ _ f, or_answer-ok _ _ e₂)

-- Receive where nothing happens between its locks: its two checks on the voucher's channel.
pub receive-channel :
    (chain : Transactor) (cur : ℕ) (voucher : String) (m : Nested State) (i : VoucherInfo)
    (s : State)
    → chain.verify_voucher cur voucher ≡ ok i
    → i.lane ≡ 0
    → find_channel cur i.sender i.channel m ≡ ok s
    → receive chain chain cur voucher m m ≡ elim (receive_check chain cur i s) [
      | some r ↦ r
      | none ↦ receive_attempt chain cur voucher i s
    ]
unfolding receive
receive-channel chain cur voucher m i s e lane f =
    let there = find_channel-peer_map cur i.sender i.channel m f in
    let zero_lane : nat_eq i.lane 0 ≡ true = ground arith in
    elim (Option-cases (receive_check chain cur i s)) [
      | inl g ↦ rw (receive, e, zero_lane, f, g, there)
      | inr (r, g) ↦ rw (receive, e, zero_lane, f, g)
    ]

refused_text : {a b : String} → refused a ≡ refused b → a ≡ b
refused_text {a} e =
    ap (λ (x : Receipt). elim x [ accepted g t ↦ a | refused l ↦ l | crashed ↦ a ]) e

accepted_state : {g g' : ℤ} {s s' : State} → accepted g s ≡ accepted g' s' → s ≡ s'
accepted_state {s = s} e =
    ap (λ (x : Receipt). elim x [ accepted g t ↦ t | refused l ↦ s | crashed ↦ s ]) e

-- What the payee's handler does with a request whose voucher is accepted and that is answered by success.
stored_on_success :
    (v : Services) (cur : ℕ) (received : Received) (q : PayRequest) (gross : ℤ) (s : State)
    (body : String) {h : Handled}
    → handle_direct_pay v cur received ≡ some h
    → ((q' : PayRequest) → pay_request v ≡ ok q' → q' ≡ q)
    → v.receive q.voucher ≡ accepted gross s
    → h.response ≡ some (true, body)
    → h.stored ≡ some s
stored_on_success v cur received q gross s body e same r success =
    elim (handle_direct_pay_ends v cur received e) [
      | inl (q', t, f, rest, signed, credits) ↦
          let again : accepted gross s ≡ accepted t.gross t.new_state =
            sym r
            ∙ ap (λ (x : PayRequest). v.receive x.voucher) (sym (same q' f))
            ∙ t.from_voucher in
          t.stores ∙ ap (λ (x : State). some x) (sym (accepted_state again))
      | inr left ↦
          let (q', loss, f, refuses, rest, encoded) = left.shows_loss body success in
          let again : accepted gross s ≡ refused loss =
            sym r ∙ ap (λ (x : PayRequest). v.receive x.voucher) (sym (same q' f)) ∙ refuses in
          absurd (ground arith)
    ]

-- The payee reads the request that the payer wrote.
pub Link-reads :
    (c : Calls) (v : Services) (chain : Transactor) (cur : ℕ) (m : Nested State)
    (received : Received) (q q' : PayRequest) (request : String)
    → Link c v chain cur m received
    → c.marshal q ≡ ok request
    → pay_request (payee v chain cur m request) ≡ ok q'
    → q' ≡ q
Link-reads c v chain cur m received q q' request link e f =
    let (raw, g, u) = pay_request-unmarshal (payee v chain cur m request) f in
    let own = link.reads_request q request e in
    ok-injective (sym u ∙ ap (λ (x : String). v.unmarshal_request x) (sym (ok-injective g)) ∙ own)

-- An answer that claims success where payMgr refuses the voucher shows the voucher on record.
pub shown_on_success :
    (v : Services) (cur : ℕ) (received : Received) (q : PayRequest) (loss : String) (body : String)
    {h : Handled}
    → handle_direct_pay v cur received ≡ some h
    → ((q' : PayRequest) → pay_request v ≡ ok q' → q' ≡ q)
    → v.receive q.voucher ≡ refused loss
    → h.response ≡ some (true, body)
    → v.marshal_response (record { network_loss = loss; sig_type = 0; signature = "" }) ≡ ok body
shown_on_success v cur received q loss body e same r success =
    elim (handle_direct_pay_ends v cur received e) [
      | inl (q', t, f, rest, signed, credits) ↦
          let again : refused loss ≡ accepted t.gross t.new_state =
            sym r
            ∙ ap (λ (x : PayRequest). v.receive x.voucher) (sym (same q' f))
            ∙ t.from_voucher in
          absurd (ground arith)
      | inr left ↦
          let (q', shown, f, refuses, rest, encoded) = left.shows_loss body success in
          let again : refused loss ≡ refused shown =
            sym r ∙ ap (λ (x : PayRequest). v.receive x.voucher) (sym (same q' f)) ∙ refuses in
          let text : shown ≡ loss = sym (refused_text again) in rw (← text) encoded
    ]

-- A payer that pays by itself over such a link never commits before the payee. If the two sides of the channel
-- are in step, the payer's channel is sound and can count one payment more, the payment does not lower what
-- is redeemed, and the payee's transactor reads the voucher as what was signed, on lane 0: then, where the
-- payer commits, the payee has stored the payment, and both sides are in step again.
pub payer_commits_after_payee :
    (c : Calls) (v : Services) (chain chain' : Transactor) (cleaned now last : Time) (p : Payment)
    (cs : CachedPaychState) (s : State) (m : Nested State) (received : Received) {w : Pending}
    (i : VoucherInfo) (to_addr : String)
    → Link c v chain' p.currency_id m received
    → IsSound cs
    → (pay_attempt chain cleaned now p cs).1 ≡ ok w
    → InSync cs.state s
    → cs.state.nonce + 1 < 2 ^ 64
    → cs.state.redeemed ≤ℤ w.state.redeemed
    → chain'.verify_voucher p.currency_id w.voucher ≡ ok i
    → i.lane ≡ 0
    → i.nonce ≡ w.state.nonce
    → i.redeemed ≡ w.state.redeemed
    → find_channel p.currency_id i.sender i.channel m ≡ ok s
    → (pay_for_self c (ok (w.voucher, w.offer)) to_addr p.petty_amt_required).ending ≡ committed
    → (request : String) × (h : Handled) × (s' : State) × (handle_direct_pay
          (payee v chain' p.currency_id m request)
          p.currency_id
          received
        ≡ some h)
      × (h.stored ≡ some s')
      × InSync (pay_commit p w last (pay_attempt chain cleaned now p cs).0).state s'
unfolding pay_commit
payer_commits_after_payee c v chain chain' cleaned now last p cs s m received {w} i to_addr link
      sound e sync small grows reads lane n r there k =
    let (checked, taken, after) =
      voucher_accepted chain chain' cleaned now p cs s i sound e sync small grows n r in
    let asked = pay_for_self-Asked c (ok (w.voucher, w.offer)) to_addr p.petty_amt_required k in
    let a = asked.answered in
    let (h, handles, responds) = link.delivers a.request (true, a.body) a.responds in
    let q : PayRequest = record {
      original_addr = asked.from_addr;
      original_secret = asked.secret;
      original_amt = p.petty_amt_required;
      offer_data = none;
      voucher = asked.paid.0;
    } in
    let paid : (w.voucher, w.offer) ≡ asked.paid = ok-injective asked.pays in
    let v' = payee v chain' p.currency_id m a.request in
    let accepts : v'.receive q.voucher
        ≡ accepted (w.state.redeemed -ℤ cs.state.redeemed)
            (received_state s w.voucher i s.balance) =
      ap (λ (x : String × Option PayOffer). v'.receive x.0) (sym paid)
      ∙ receive-channel chain' p.currency_id w.voucher m i s reads lane there
      ∙ rw (checked, taken) refl in
    let same : (q' : PayRequest) → pay_request v' ≡ ok q' → q' ≡ q =
      λ q' f. Link-reads c v chain' p.currency_id m received q q' a.request link a.encodes f in
    (
      a.request,
      h,
      received_state s w.voucher i s.balance,
      handles,
      stored_on_success v' p.currency_id received q _ _ a.body handles same accepts responds,
      after,
    )
