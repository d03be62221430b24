-- ===== src/Payproto/Receipts.antt =====
-- The four payments of paynet/protos/payproto/requesters.go: a payment is committed exactly with a receipt.
use fcr.Payproto.{
  Calls, Outcome, Ending, not_begun, committed, reverted, exchange, failed, pay_for_self,
  pay_for_self_with_offer, pay_for_others_final, pay_for_others_intermediate, connect,
}
use fcr.Base.Int.{ℤ}
use mathlib.Core.Path.{subst}
use fcr.Base.{
  String, ℕ, ◌≡◌, ok, ◌≢◌, Result, List, panic, err, Bool, true, false, ap, arith, Bool-cases, inr,
  inl, ◌==◌, Result-cases, refl, text_key, Option, fail_if, not, Option-cases, [], sym,
}
use fcr.Paymgr.Types.{PayOffer}

-- The recipient has signed a receipt for the amount and the secret.
abbrev pub HasReceipt : Calls → ℤ → String → String → ℕ × String → Type 0
HasReceipt c amt secret to_addr s = c.verify (c.receipt_data amt secret) s.0 s.1 to_addr ≡ ok tt

-- The call succeeds, commits and has the receipt of some secret, or it fails and has not committed.
pub data Ends (c : Calls) (IsSecret : String → Type 0) (amt : ℤ) (to_addr : String)
    (o : Outcome (ℕ × String)) : Type 0 where
  with_receipt :
      (secret : String) (s : ℕ × String)
      → IsSecret secret
      → o.result ≡ ok s
      → o.ending ≡ committed
      → HasReceipt c amt secret to_addr s
      → Ends c IsSecret amt to_addr o
  without :
      ((s : ℕ × String) → o.result ≢ ok s) → o.ending ≢ committed → Ends c IsSecret amt to_addr o

failed-Ends {ℓ} :
    {A : Type ℓ} (c : Calls) (P : String → Type 0) (amt : ℤ) (to_addr : String) (call : Result A)
    (e : Ending) (h : List String) (next : A → Outcome (ℕ × String))
    → e ≢ committed
    → ((a : A) → Ends c P amt to_addr (next a))
    → Ends c P amt to_addr (failed call e h next)
failed-Ends c P amt to_addr panic e h next n f = without (λ s q. cc) n
failed-Ends c P amt to_addr (err x) e h next n f = without (λ s q. cc) n
failed-Ends c P amt to_addr (ok a) e h next n f = f a

is_committed : Ending → Bool
is_committed committed = true
is_committed not_begun = false
is_committed (reverted loss) = false

pub reverted_ne : (loss : String) → reverted loss ≢ committed
unfolding is_committed
reverted_ne loss e = let b : false ≡ true = ap is_committed e in absurd (ground arith)

pub not_begun_ne : not_begun ≢ committed
unfolding is_committed
not_begun_ne e = let b : false ≡ true = ap is_committed e in absurd (ground arith)

exchange-Ends :
    (c : Calls) (P : String → Type 0) (encoded : Result String) (amt : ℤ) (secret to_addr : String)
    → P secret
    → Ends c P amt to_addr (exchange c encoded amt secret to_addr)
unfolding exchange
exchange-Ends c P encoded amt secret to_addr h =
    failed-Ends c P amt to_addr encoded _ _ _ (reverted_ne "") (λ request.
      failed-Ends c P amt to_addr (c.send request) _ _ _ (reverted_ne "") (λ sent.
        failed-Ends c P amt to_addr (c.get_response request) _ _ _ (reverted_ne "") (λ response.
          elim (Bool-cases response.0) [
            | inr f ↦ rw f (without (λ s q. cc) (reverted_ne ""))
            | inl t ↦ rw t (
                failed-Ends c P amt to_addr (c.unmarshal response.1) _ _ _ (reverted_ne "")
                  (λ decoded. elim (Bool-cases (decoded.network_loss == "")) [
                    | inr f ↦ rw f (without (λ s q. cc) (reverted_ne decoded.network_loss))
                    | inl u ↦
                        rw u
                          (elim (Result-cases (
                            c.verify (c.receipt_data amt secret) decoded.sig_type decoded.signature
                              to_addr)) [
                                | inl (valid, g) ↦ rw g (
                                    with_receipt secret (decoded.sig_type, decoded.signature) h refl
                                      refl g)
                                | inr (inl (e, g)) ↦ rw g (without (λ s q. cc) (reverted_ne ""))
                                | inr (inr g) ↦ rw g (without (λ s q. cc) (reverted_ne ""))
                              ])
                  ]))
          ])))

secret-Ends :
    (c : Calls) (amt : ℤ) (to_addr : String) (next : String → Outcome (ℕ × String))
    → ((secret : String)
        → c.read_secret ≡ ok secret
        → Ends c (λ s. c.read_secret ≡ ok s) amt to_addr (next secret))
    → Ends c (λ s. c.read_secret ≡ ok s) amt to_addr (failed c.read_secret (reverted "") [] next)
secret-Ends c amt to_addr next f = elim (Result-cases c.read_secret) [
  | inl (secret, g) ↦
      subst (λ r. Ends c (λ s. c.read_secret ≡ ok s) amt to_addr (failed r (reverted "") [] next))
        (sym g) (f secret g)
  | inr (inl (e, g)) ↦
      subst (λ r. Ends c (λ s. c.read_secret ≡ ok s) amt to_addr (failed r (reverted "") [] next))
        (sym g) (without (λ s q. cc) (reverted_ne ""))
  | inr (inr g) ↦
      subst (λ r. Ends c (λ s. c.read_secret ≡ ok s) amt to_addr (failed r (reverted "") [] next))
        (sym g) (without (λ s q. cc) (reverted_ne ""))
]

-- The payments of the four requesters, with what payMgr's call returns.
pub data Payment : Type 0 where
  for_self : String → ℤ → Payment
  for_self_with_offer : PayOffer → ℤ → Payment
  for_others_final for_others_intermediate : PayOffer → ℤ → String → String → Payment

abbrev pub run_payment : Calls → Result (String × Option PayOffer) → Payment → Outcome (ℕ × String)
run_payment c pay (for_self to_addr amt) = pay_for_self c pay to_addr amt
run_payment c pay (for_self_with_offer offer amt) = pay_for_self_with_offer c pay offer amt
run_payment c pay (for_others_final offer amt addr secret) =
    pay_for_others_final c pay offer amt addr secret
run_payment c pay (for_others_intermediate offer amt addr secret) =
    pay_for_others_intermediate c pay offer amt addr secret

abbrev pub amount_of : Payment → ℤ
amount_of (for_self to_addr amt) = amt
amount_of (for_self_with_offer offer amt) = amt
amount_of (for_others_final offer amt addr secret) = amt
amount_of (for_others_intermediate offer amt addr secret) = amt

-- Who signs the receipt.
abbrev pub payee_of : Payment → String
payee_of (for_self to_addr amt) = to_addr
payee_of (for_self_with_offer offer amt) = offer.dest_addr
payee_of (for_others_final offer amt addr secret) = offer.dest_addr
payee_of (for_others_intermediate offer amt addr secret) = offer.dest_addr

-- A payment of one's own takes a new secret, one for others that of the request.
abbrev pub IsSecretOf : Calls → Payment → String → Type 0
IsSecretOf c (for_self to_addr amt) s = c.read_secret ≡ ok s
IsSecretOf c (for_self_with_offer offer amt) s = c.read_secret ≡ ok s
IsSecretOf c (for_others_final offer amt addr secret) s = s ≡ secret
IsSecretOf c (for_others_intermediate offer amt addr secret) s = s ≡ secret

-- Each of the four requesters succeeds exactly when it commits the payment, and then it has a receipt for the
-- amount from the one who is paid in the end, that crypto.Verify accepts; otherwise it fails, and does not
-- commit. The receipt of a payment for others is for the secret of the request, so that it can be passed on.
pub payment-Ends :
    (c : Calls) (pay : Result (String × Option PayOffer)) (p : Payment)
    → Ends c (IsSecretOf c p) (amount_of p) (payee_of p) (run_payment c pay p)
unfolding pay_for_self pay_for_self_with_offer pay_for_others_final pay_for_others_intermediate
payment-Ends c pay (for_self to_addr amt) =
    let P = IsSecretOf c (for_self to_addr amt) in
    failed-Ends c P amt to_addr (connect c) _ _ _ not_begun_ne (λ from_addr.
      failed-Ends c P amt to_addr pay _ _ _ not_begun_ne (λ paid.
        secret-Ends c amt to_addr _ (λ secret g. exchange-Ends c P _ amt secret to_addr g)))
payment-Ends c pay (for_self_with_offer offer amt) =
    let P = IsSecretOf c (for_self_with_offer offer amt) in
    failed-Ends c P amt offer.dest_addr (connect c) _ _ _ not_begun_ne (λ from_addr.
      failed-Ends c P amt offer.dest_addr pay _ _ _ not_begun_ne (λ paid.
        secret-Ends c amt offer.dest_addr _
          (λ secret g. exchange-Ends c P _ amt secret offer.dest_addr g)))
payment-Ends c pay (for_others_final offer amt addr secret) =
    let P = IsSecretOf c (for_others_final offer amt addr secret) in
    failed-Ends c P amt offer.dest_addr
      (fail_if (not (offer.dest_addr == offer.res_to)) "invalid offer received") _ _ _ not_begun_ne
      (λ fine. failed-Ends c P amt offer.dest_addr (connect c) _ _ _ not_begun_ne (λ from_addr.
        failed-Ends c P amt offer.dest_addr pay _ _ _ not_begun_ne
          (λ paid. exchange-Ends c P _ amt secret offer.dest_addr refl)))
payment-Ends c pay (for_others_intermediate offer amt addr secret) =
    let P = IsSecretOf c (for_others_intermediate offer amt addr secret) in
    failed-Ends c P amt offer.dest_addr (connect c) _ _ _ not_begun_ne (λ from_addr.
      failed-Ends c P amt offer.dest_addr pay _ _ _ not_begun_ne (λ paid.
        elim (Option-cases paid.1) [
          | inl q ↦ rw q (without (λ s e. cc) (reverted_ne ""))
          | inr (received_offer, q) ↦ rw q (exchange-Ends c P _ amt secret offer.dest_addr refl)
        ]))
