-- ===== src/Payproto/Traces.antt =====
-- What the steps of the exchange in paynet/protos/payproto/requesters.go were, from how it ended.
use fcr.Payproto.{
  committed, Ending, Outcome, Calls, PayResponse, pay_for_self, failed, exchange, connect,
  not_begun, reverted,
}
use fcr.Base.{
  Result, List, String, ◌≢◌, ◌≡◌, ok, panic, err, refl, true, ◌==◌, Bool-cases, inr, inl, ◌∙◌, ap,
  Bool, Option, none, text_key, false, arith, sym,
}
use fcr.Base.Int.{ℤ}
use fcr.Payproto.Receipts.{reverted_ne, not_begun_ne}
use fcr.Paymgr.Types.{PayOffer}

failed-committed {ℓ} :
    {A : Type ℓ} {B : Type 0} (call : Result A) (e : Ending) (h : List String)
    (next : A → Outcome B)
    → e ≢ committed
    → (failed call e h next).ending ≡ committed
    → (a : A) × (call ≡ ok a) × ((next a).ending ≡ committed)
failed-committed panic e h next n k = absurd (n k)
failed-committed (err x) e h next n k = absurd (n k)
failed-committed (ok a) e h next n k = (a, refl, k)

-- The request, its response, and what the response says.
pub record Answered (c : Calls) (encoded : Result String) : Type 0 where
  pub request : String
  pub body : String
  pub decoded : PayResponse
  pub encodes : encoded ≡ ok request
  pub responds : c.get_response request ≡ ok (true, body)
  pub decodes : c.unmarshal body ≡ ok decoded
  pub no_loss : (decoded.network_loss == "") ≡ true

exchange-Answered :
    (c : Calls) (encoded : Result String) (amt : ℤ) (secret to_addr : String)
    → (exchange c encoded amt secret to_addr).ending ≡ committed
    → Answered c encoded
unfolding exchange
exchange-Answered c encoded amt secret to_addr k =
    let (request, f₁, k₁) = failed-committed encoded _ _ _ (reverted_ne "") k in
    let (sent, f₂, k₂) = failed-committed (c.send request) _ _ _ (reverted_ne "") k₁ in
    let ((status, body), f₃, k₃) =
      failed-committed (c.get_response request) _ _ _ (reverted_ne "") k₂ in
    elim (Bool-cases status) [
      | inr b ↦ absurd (reverted_ne "" (rw b at k₃))
      | inl b ↦
          let (decoded, f₄, k₄) =
            failed-committed (c.unmarshal body) _ _ _ (reverted_ne "") (rw b at k₃) in
          elim (Bool-cases (decoded.network_loss == "")) [
            | inr n ↦ absurd (reverted_ne decoded.network_loss (rw n at k₄))
            | inl n ↦ record {
              request = request;
              body = body;
              decoded = decoded;
              encodes = f₁;
              responds = f₃ ∙ ap (λ (x : Bool). ok (x, body)) b;
              decodes = f₄;
              no_loss = n;
            }
          ]
    ]

-- The request of a payment of one's own.
pub record Asked (c : Calls) (pay : Result (String × Option PayOffer)) (amt : ℤ) : Type 0 where
  pub from_addr : String
  pub paid : String × Option PayOffer
  pub secret : String
  pub pays : pay ≡ ok paid
  pub answered : Answered c (
      c.marshal (record {
        original_addr = from_addr;
        original_secret = secret;
        original_amt = amt;
        offer_data = none;
        voucher = paid.0;
      }))

pub pay_for_self-Asked :
    (c : Calls) (pay : Result (String × Option PayOffer)) (to_addr : String) (amt : ℤ)
    → (pay_for_self c pay to_addr amt).ending ≡ committed
    → Asked c pay amt
unfolding pay_for_self
pay_for_self-Asked c pay to_addr amt k =
    let (from_addr, f₁, k₁) = failed-committed (connect c) _ _ _ not_begun_ne k in
    let (paid, f₂, k₂) = failed-committed pay _ _ _ not_begun_ne k₁ in
    let (secret, f₃, k₃) = failed-committed c.read_secret _ _ _ (reverted_ne "") k₂ in
    record {
      from_addr = from_addr;
      paid = paid;
      secret = secret;
      pays = f₂;
      answered = exchange-Answered c _ amt secret to_addr k₃;
    }

failed-reverted {ℓ} :
    {A : Type ℓ} {B : Type 0} (call : Result A) (e : Ending) (h : List String)
    (next : A → Outcome B) (loss : String)
    → e ≢ reverted loss
    → (failed call e h next).ending ≡ reverted loss
    → (a : A) × (call ≡ ok a) × ((next a).ending ≡ reverted loss)
failed-reverted panic e h next loss n k = absurd (n k)
failed-reverted (err x) e h next loss n k = absurd (n k)
failed-reverted (ok a) e h next loss n k = (a, refl, k)

reverted-injective : {a b : String} → reverted a ≡ reverted b → a ≡ b
reverted-injective {a} e = ap (λ x. elim x [ not_begun ↦ a | committed ↦ a | reverted l ↦ l ]) e

not_begun_ne_reverted : (loss : String) → not_begun ≢ reverted loss
not_begun_ne_reverted loss e =
    let b : false ≡ true =
      ap (λ x. elim x [ not_begun ↦ false | committed ↦ true | reverted l ↦ true ]) e in
    absurd (ground arith)

empty_ne : (loss : String) → (loss == "") ≡ false → reverted "" ≢ reverted loss
empty_ne loss n e =
    let same = (text_key.beq_iff loss "").1 (sym (reverted-injective e)) in
    let clash : false ≡ true = sym n ∙ same in absurd (ground arith)

-- The request of a payment that the response reverts with a voucher.
pub record Lost (c : Calls) (encoded : Result String) (loss : String) : Type 0 where
  pub request : String
  pub body : String
  pub decoded : PayResponse
  pub encodes : encoded ≡ ok request
  pub responds : c.get_response request ≡ ok (true, body)
  pub decodes : c.unmarshal body ≡ ok decoded
  pub shows : decoded.network_loss ≡ loss

exchange-Lost :
    (c : Calls) (encoded : Result String) (amt : ℤ) (secret to_addr loss : String)
    → (loss == "") ≡ false
    → (exchange c encoded amt secret to_addr).ending ≡ reverted loss
    → Lost c encoded loss
unfolding exchange
exchange-Lost c encoded amt secret to_addr loss full k =
    let n = empty_ne loss full in
    let (request, f₁, k₁) = failed-reverted encoded _ _ _ loss n k in
    let (sent, f₂, k₂) = failed-reverted (c.send request) _ _ _ loss n k₁ in
    let ((status, body), f₃, k₃) = failed-reverted (c.get_response request) _ _ _ loss n k₂ in
    elim (Bool-cases status) [
      | inr b ↦ absurd (n (rw b at k₃))
      | inl b ↦
          let (decoded, f₄, k₄) = failed-reverted (c.unmarshal body) _ _ _ loss n (rw b at k₃) in
          elim (Bool-cases (decoded.network_loss == "")) [
            | inr t ↦ record {
              request = request;
              body = body;
              decoded = decoded;
              encodes = f₁;
              responds = f₃ ∙ ap (λ (x : Bool). ok (x, body)) b;
              decodes = f₄;
              shows = reverted-injective (rw t at k₄);
            }
            | inl t ↦
                let (valid, f₅, k₅) =
                  failed-reverted
                    (c.verify (c.receipt_data amt secret) decoded.sig_type decoded.signature
                      to_addr)
                    _ _ _ loss n (rw t at k₄) in
                absurd (reverted_ne loss (sym k₅))
          ]
    ]

pub record AskedLost (c : Calls) (pay : Result (String × Option PayOffer)) (amt : ℤ) (loss : String)
    : Type 0 where
  pub from_addr : String
  pub paid : String × Option PayOffer
  pub secret : String
  pub pays : pay ≡ ok paid
  pub answered :
      Lost c
        (c.marshal (record {
          original_addr = from_addr;
          original_secret = secret;
          original_amt = amt;
          offer_data = none;
          voucher = paid.0;
        }))
        loss

pub pay_for_self-Lost :
    (c : Calls) (pay : Result (String × Option PayOffer)) (to_addr : String) (amt : ℤ)
    (loss : String)
    → (loss == "") ≡ false
    → (pay_for_self c pay to_addr amt).ending ≡ reverted loss
    → AskedLost c pay amt loss
unfolding pay_for_self
pay_for_self-Lost c pay to_addr amt loss full k =
    let (from_addr, f₁, k₁) =
      failed-reverted (connect c) _ _ _ loss (not_begun_ne_reverted loss) k in
    let (paid, f₂, k₂) = failed-reverted pay _ _ _ loss (not_begun_ne_reverted loss) k₁ in
    let (secret, f₃, k₃) = failed-reverted c.read_secret _ _ _ loss (empty_ne loss full) k₂ in
    record {
      from_addr = from_addr;
      paid = paid;
      secret = secret;
      pays = f₂;
      answered = exchange-Lost c _ amt secret to_addr loss full k₃;
    }
