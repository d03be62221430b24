-- ===== src/Paymgr/Sound/Manager.antt =====
-- The invariant of all outbound channels of the payment manager, and Pay of
-- paymgr/paymentmgr_impl.go as a whole.
use mathlib.Core.Option.{some-injective}
use mathlib.Core.Path.{subst}
use fcr.Base.Nested.{
  Nested, peer_map, set_channel, lookup-set_channel, find_channel, find_channel-peer_map,
}
use fcr.Paymgr.Types.{CachedPaychState, Transactor, Time}
use fcr.Base.{
  ℕ, String, ◌≡◌, Option, some, Bool-cases, nat_eq, ◌&&◌, ◌==◌, inl, sym, ◌∙◌, inr, Result-cases,
  ◌>>◌, ◌>>=◌, Option-cases, text_key, >>=-eq-ok, fail_if, ok, true, false, none, arith,
}
use fcr.Paymgr.Sound.{IsSound}
use fcr.Paymgr.Outbound.{
  has_loss, pay_commit, pay_revert, Pending, Payment, pay_params, pay_check, pay_attempt, pay,
}
use fcr.Paymgr.Sound.Pay.{pay_attempt-IsSound, pay_commit-IsSound, pay_revert-IsSound}
use fcr.Base.Map.{lookup}
use fcr.Base.Int.{pos, ◌<ℤ◌, leb_ℤ, le-cases}

-- Every outbound channel is sound.
abbrev pub AllSound : Nested CachedPaychState → Type 0
AllSound m =
    (cur : ℕ) (peer ch : String) (cs : CachedPaychState)
    → lookup ch (peer_map cur peer m) ≡ some cs
    → IsSound cs

-- Writing a sound state to one channel.
set_channel-AllSound :
    (cur : ℕ) (peer ch : String) (cs : CachedPaychState) (m : Nested CachedPaychState)
    → AllSound m
    → IsSound cs
    → AllSound (set_channel cur peer ch cs m)
set_channel-AllSound cur peer ch cs m h sound c p k found e =
    let there = lookup-set_channel cur peer ch c p k cs m in
    elim (Bool-cases (nat_eq cur c && (peer == p) && (ch == k))) [
      | inl same ↦
          let written : cs ≡ found = some-injective _ _ (sym (there ∙ rw same) ∙ e) in
          subst IsSound written sound
      | inr other ↦ h c p k found (sym (there ∙ rw other) ∙ e)
    ]

-- The function that ends a payment, on the manager's channels: nobody else has written its channel since.
abbrev pub end_payment :
    ℕ
    → String
    → String
    → (CachedPaychState → CachedPaychState)
    → Nested CachedPaychState
    → Nested CachedPaychState
end_payment cur to ch f m = elim (lookup ch (peer_map cur to m)) [
  | none ↦ m
  | some cs ↦ set_channel cur to ch (f cs) m
]

end_payment-set_channel :
    (cur : ℕ) (to ch : String) (f : CachedPaychState → CachedPaychState) (cs : CachedPaychState)
    (m : Nested CachedPaychState)
    → AllSound (set_channel cur to ch cs m)
    → IsSound (f cs)
    → AllSound (end_payment cur to ch f (set_channel cur to ch cs m))
end_payment-set_channel cur to ch f cs m h sound =
    let same : nat_eq cur cur && (to == to) && (ch == ch) ≡ true =
      ground (arith, text_key.beq_iff to to, text_key.beq_iff ch ch) in
    let there : lookup ch (peer_map cur to (set_channel cur to ch cs m)) ≡ some cs =
      rw same at (lookup-set_channel cur to ch cur to ch cs m) in
    let after = set_channel cur to ch cs m in
    subst
      (λ (x : Option CachedPaychState).
        AllSound (elim x [ none ↦ after | some c ↦ set_channel cur to ch (f c) after ]))
      (sym there) (set_channel-AllSound cur to ch (f cs) after h sound)

pay_params-positive : (p : Payment) → pay_params p ≡ ok tt → pos 0 <ℤ p.petty_amt_required
unfolding pay_params
pay_params-positive p e =
    let (u, a, e₁) =
      >>=-eq-ok
        (fail_if (leb_ℤ p.petty_amt_required (pos 0)) "petty amount required must be positive") _
        e in
    elim (le-cases p.petty_amt_required (pos 0)) [
      | inl (t, l) ↦ absurd (cc (rw t at a))
      | inr (t, l) ↦ l
    ]

pay_check-lossless :
    (now : Time) (p : Payment) (cs : CachedPaychState)
    → pay_check now p cs ≡ ok tt
    → has_loss cs.state ≡ false
unfolding pay_check
pay_check-lossless now p cs e =
    let (u, a, e₁) = >>=-eq-ok (fail_if (has_loss cs.state) "network loss presents") _ e in
    elim (Bool-cases (has_loss cs.state)) [ inl t ↦ absurd (cc (rw t at a)) | inr f ↦ f ]

-- What Pay has made sure of where it returns a pending payment, and the channels after it, after the payment's
-- commit and after its revert.
pub record Settles (chain : Transactor) (p : Payment) (to ch : String) (t : Time) (loss : String)
    (seen after : Nested CachedPaychState) (w : Pending) : Type 0 where
  pub for_some : pos 0 <ℤ p.petty_amt_required
  pub channel : CachedPaychState
  pub was_there : lookup ch (peer_map p.currency_id to seen) ≡ some channel
  pub without_loss : has_loss channel.state ≡ false
  pub sound : AllSound after
  pub committed : AllSound (end_payment p.currency_id to ch (pay_commit p w t) after)
  pub reverted : AllSound (end_payment p.currency_id to ch (pay_revert chain p loss) after)

-- Where every outbound channel is sound and Pay returns a pending payment, the amount was positive and the channel
-- was there without network loss at the first look; and every outbound channel is sound after Pay, after
-- the payment is committed, and after it is reverted with whatever voucher, whatever other calls did
-- between Pay's two locks.
pub pay-Settles :
    (chain : Transactor) (seen_at cleaned now t : Time) (p : Payment)
    (to_addr ch_addr loss : String) (seen m : Nested CachedPaychState) {w : Pending}
    → AllSound m
    → (pay chain seen_at cleaned now p to_addr ch_addr seen m).1 ≡ ok w
    → Settles chain p to_addr ch_addr t loss seen
        (pay chain seen_at cleaned now p to_addr ch_addr seen m).0
        w
unfolding pay
pay-Settles chain seen_at cleaned now t p to_addr ch_addr loss seen m {w} h e =
    elim (Result-cases
      (pay_params p >> find_channel p.currency_id to_addr ch_addr seen >>= pay_check seen_at p)) [
        | inr (inl (x, f)) ↦ absurd (cc (rw (pay, f) at e))
        | inr (inr f) ↦ absurd (cc (rw (pay, f) at e))
        | inl (x, f) ↦ elim (Option-cases (lookup ch_addr (peer_map p.currency_id to_addr m))) [
          | inl g ↦ absurd (cc (rw (pay, f, g) at e))
          | inr (cs, g) ↦
              let (u, a, f₁) =
                >>=-eq-ok (pay_params p >> find_channel p.currency_id to_addr ch_addr seen) _ f in
              let (v, b, f₂) = >>=-eq-ok (pay_params p) _ a in
              let paid : (pay_attempt chain cleaned now p cs).1 ≡ ok w = rw (pay, f, g) at e in
              let s = h p.currency_id to_addr ch_addr cs g in
              let s' = pay_attempt-IsSound chain cleaned now p cs s in
              let cs' = (pay_attempt chain cleaned now p cs).0 in
              let all = set_channel-AllSound p.currency_id to_addr ch_addr cs' m h s' in
              record {
                for_some = pay_params-positive p b;
                channel = u;
                was_there = find_channel-peer_map p.currency_id to_addr ch_addr seen f₂;
                without_loss = pay_check-lossless seen_at p u f₁;
                sound = rw (pay, f, g) all;
                committed =
                    rw (pay, f, g)
                      (end_payment-set_channel p.currency_id to_addr ch_addr (pay_commit p w t) cs'
                        m all (pay_commit-IsSound chain cleaned now t p cs s paid));
                reverted =
                    rw (pay, f, g)
                      (end_payment-set_channel p.currency_id to_addr ch_addr
                        (pay_revert chain p loss) cs' m all
                        (pay_revert-IsSound chain p loss cs' s'));
              }
        ]
      ]
