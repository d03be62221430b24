-- ===== src/Payproto/Loss.antt =====
-- Network loss in paynet/protos/payproto/ and paymgr/: the payee has stored a payment whose receipt did not
-- reach the payer.
use fcr.Paymgr.Types.{Transactor, VoucherInfo, CachedPaychState, u64, Time, PayOffer}
use fcr.Base.{
  ℕ, ◌<◌, ◌≡◌, ok, ◌==◌, false, true, text_key, nat_key, arith, ◌+◌, [], leb, String, ◌^◌, ◌≢◌, ap,
  ◌∙◌, ◌≤◌, Option, none, sym, ok-injective, refl,
}
use fcr.Paychstate.{State}
use fcr.Base.Int.{◌≤ℤ◌, pos, le→ltb}
use fcr.Paymgr.Outbound.{proves_loss, pay_revert, Payment, Pending, pay_attempt, paid_state}
use fcr.Paymgr.Channels.{bear_loss}
use fcr.Payproto.{Calls, pay_for_self, committed, reverted, PayResponse, PayRequest}
use fcr.Payproto.Handlers.{Services, Received, pay_request}
use fcr.Base.Nested.{Nested, find_channel}
use fcr.Payproto.Direct.{Link, receive-channel, Link-reads, shown_on_success, payee}
use fcr.Paymgr.Receiving.{InSync, stale_voucher_refused}
use fcr.Paymgr.Expiry.{release_expired_amount}
use fcr.Paymgr.Sound.Pay.{pay_attempt-Paid}
use fcr.Payproto.Traces.{pay_for_self-Asked, pay_for_self-Lost}
use fcr.Paymgr.Inbound.{refused}

-- The payee's side has gone further than the payer's, and the payer's transactor reads the voucher on the
-- payee's record as what that side says, for the payer's channel.
pub record IsAhead (chain : Transactor) (cur : ℕ) (payer payee : State) (i : VoucherInfo)
    : Type 0 where
  pub later : payer.nonce < payee.nonce
  pub more : payer.redeemed ≤ℤ payee.redeemed
  pub balance : payer.balance ≤ℤ payee.balance
  pub reads : chain.verify_voucher cur payee.voucher ≡ ok i
  pub sender : i.sender ≡ payer.from_addr
  pub channel : i.channel ≡ payer.ch_addr
  pub lane : i.lane ≡ 0
  pub nonce : i.nonce ≡ payee.nonce
  pub redeemed : i.redeemed ≡ payee.redeemed
  pub written : (payee.voucher == "") ≡ false

IsAhead-proves_loss :
    (chain : Transactor) (cur : ℕ) (payer payee : State) (i : VoucherInfo)
    → IsAhead chain cur payer payee i
    → proves_loss chain cur payer payee.voucher ≡ true
IsAhead-proves_loss chain cur payer payee i h =
    let a = (text_key.beq_iff i.sender payer.from_addr).1 h.sender in
    let b = (text_key.beq_iff i.channel payer.ch_addr).1 h.channel in
    let c = (nat_key.beq_iff i.lane 0).1 h.lane in
    let d : leb i.nonce payer.nonce ≡ false = ground (arith, h.later, h.nonce) in
    let e = le→ltb i.redeemed payer.redeemed (rw h.redeemed h.more) in
    rw (proves_loss, h.reads, a, b, c, d, e)

-- The payer's channel after it has seen the payee's voucher and has borne the loss.
abbrev borne : CachedPaychState → State → VoucherInfo → CachedPaychState
borne cs payee i = record cs {
  state = record cs.state {
    redeemed = i.redeemed;
    nonce = i.nonce;
    voucher = payee.voucher;
    network_loss_voucher = "";
    state_nonce = u64 (u64 (cs.state.state_nonce + 1) + 1);
  };
  reserved_amt = pos 0;
  reservations = [];
}

reverted_then_borne :
    (chain : Transactor) (p : Payment) (cs : CachedPaychState) (payee : State) (i : VoucherInfo)
    → IsAhead chain p.currency_id cs.state payee i
    → bear_loss chain p.currency_id (pay_revert chain p payee.voucher cs) ≡ ok (borne cs payee i)
unfolding bear_loss pay_revert
reverted_then_borne chain p cs payee i h =
    let proof = IsAhead-proves_loss chain p.currency_id cs.state payee i h in
    rw (pay_revert, bear_loss, h.written, proof, h.reads, h.written)

-- A stored payment whose receipt was lost heals with the next one. If the payee's side is ahead, and the next
-- payment over a link that loses messages but makes none up has a voucher that the payee's transactor reads as
-- signed, then the payer does not commit it; and where it reverts with a voucher, that is the one on the
-- payee's record, and bearing the loss brings both sides in step again, with no reservation left.
pub lost_receipt_heals :
    (c : Calls) (v : Services) (chain chain' : Transactor) (cleaned now : Time) (p : Payment)
    (cs : CachedPaychState) (s : State) (m : Nested State) (received : Received) {w : Pending}
    (i i' : VoucherInfo) (to_addr : String)
    → Link c v chain' p.currency_id m received
    → IsAhead chain p.currency_id cs.state s i'
    → (pay_attempt chain cleaned now p cs).1 ≡ ok w
    → cs.state.nonce + 1 < 2 ^ 64
    → chain'.verify_voucher p.currency_id w.voucher ≡ ok i
    → i.lane ≡ 0
    → i.nonce ≡ w.state.nonce
    → find_channel p.currency_id i.sender i.channel m ≡ ok s
    → ((pay_for_self c (ok (w.voucher, w.offer)) to_addr p.petty_amt_required).ending ≢ committed)
      × ((loss : String)
          → (pay_for_self c (ok (w.voucher, w.offer)) to_addr p.petty_amt_required).ending
            ≡ reverted loss
          → (loss == "") ≡ false
          → (cs' : CachedPaychState) × (bear_loss chain p.currency_id
                (pay_revert chain p loss (pay_attempt chain cleaned now p cs).0)
              ≡ ok cs')
            × InSync cs'.state s
            × (cs'.reservations ≡ []))
unfolding paid_state release_expired_amount
lost_receipt_heals c v chain chain' cleaned now p cs s m received {w} i i' to_addr link ahead e
      small reads lane n there =
    let (fine, same_cs, d) = pay_attempt-Paid chain cleaned now p cs e in
    let nonce : w.state.nonce ≡ cs.state.nonce + 1 = ap (λ t. t.nonce) d.new_state ∙ omega arith in
    let stale : i.nonce ≤ s.nonce = omega (arith, n, nonce, ahead.later) in
    let refusal = stale_voucher_refused chain' p.currency_id w.voucher i s stale in
    let answers = receive-channel chain' p.currency_id w.voucher m i s reads lane there in
    let cs₁ = release_expired_amount cleaned cs in
    let shown : (request : String) (asked : String × Option PayOffer)
          (from_addr secret body : String) (decoded : PayResponse)
        → ok (w.voucher, w.offer) ≡ ok asked
        → c.marshal (record {
          original_addr = from_addr;
          original_secret = secret;
          original_amt = p.petty_amt_required;
          offer_data = none;
          voucher = asked.0;
        })
          ≡ ok request
        → c.get_response request ≡ ok (true, body)
        → c.unmarshal body ≡ ok decoded
        → decoded.network_loss ≡ s.voucher =
      λ request asked from_addr secret body decoded pays encodes responds decodes.
        let q : PayRequest = record {
          original_addr = from_addr;
          original_secret = secret;
          original_amt = p.petty_amt_required;
          offer_data = none;
          voucher = asked.0;
        } in
        let v' = payee v chain' p.currency_id m request in
        let refuses : v'.receive q.voucher ≡ refused s.voucher =
          ap (λ (x : String × Option PayOffer). v'.receive x.0) (sym (ok-injective pays))
          ∙ answers
          ∙ rw refusal.0 refl in
        let (h, handles, response) = link.delivers request (true, body) responds in
        let same : (q' : PayRequest) → pay_request v' ≡ ok q' → q' ≡ q =
          λ q' f. Link-reads c v chain' p.currency_id m received q q' request link encodes f in
        let encoded =
          shown_on_success v' p.currency_id received q s.voucher body handles same refuses
            response in
        let read = link.reads_response _ body encoded in
        ap (λ (x : PayResponse). x.network_loss) (ok-injective (sym decodes ∙ read)) in
    (
      λ k.
          let asked =
            pay_for_self-Asked c (ok (w.voucher, w.offer)) to_addr p.petty_amt_required k in
          let a = asked.answered in
          let loss =
            shown a.request asked.paid asked.from_addr asked.secret a.body a.decoded asked.pays
              a.encodes a.responds a.decodes in
          let clash : true ≡ false =
            sym a.no_loss ∙ ap (λ (x : String). x == "") loss ∙ ahead.written in
          absurd (ground arith),
      λ loss k full.
          let asked =
            pay_for_self-Lost c (ok (w.voucher, w.offer)) to_addr p.petty_amt_required loss full
              k in
          let a = asked.answered in
          let own =
            shown a.request asked.paid asked.from_addr asked.secret a.body a.decoded asked.pays
              a.encodes a.responds a.decodes in
          let text : loss ≡ s.voucher = sym a.shows ∙ own in
          (
            borne cs₁ s i',
            rw (text, same_cs) (reverted_then_borne chain p cs₁ s i' ahead),
            record {
              redeemed = sym ahead.redeemed;
              nonce = sym ahead.nonce;
              balance = ahead.balance;
            },
            refl,
          ),
    )
