-- ===== src/Payproto.antt =====
-- The payment protocol, paynet/protos/payproto/requesters.go and handlers.go. What the other parts of the
-- node, the network, JSON and the signatures answer during one call is the record `Calls`; the
-- record that a call adds to the history of the peer, in a goroutine, is kept as its description without the
-- error's text. A secret, a signature and the bytes that a receipt signs are texts.
pub mod Handlers
pub mod Receipts
pub mod Handled
pub mod Forwarded
pub mod Traces
pub mod Direct
pub mod Loss
mod Examples
use fcr.Base.{
  ◌>>=◌, ◌>>◌, String, ℕ, Bool, Result, Option, List, [], ◌∷◌, ok, err, panic, some, none, not,
  if◌then◌else◌, fail_if, text_key, ◌==◌,
}
use fcr.Base.Int.{ℤ}
use fcr.Paymgr.Types.{PayOffer}

-- What becomes of the payment that payMgr has begun: its functions commit and revert, or neither.
pub data Ending : Type 0 where
  not_begun : Ending
  committed : Ending
  reverted : String → Ending

pub record Outcome (A : Type 0) : Type 0 where
  pub result : Result A
  pub ending : Ending
  pub history : List String

-- The JSON of a request; `offer_data` is only in that of the proxy protocol.
pub record PayRequest : Type 0 where
  pub original_addr : String
  pub original_secret : String
  pub original_amt : ℤ
  pub offer_data : Option String
  pub voucher : String

pub record PayResponse : Type 0 where
  pub network_loss : String
  pub sig_type : ℕ
  pub signature : String

pub record Calls : Type 0 where
  pub has_peer : Result Bool
  pub is_blocked : Result Bool
  pub connect_to_peer : Result (Unit {0})
  pub new_stream : Result (Unit {0})
  pub new_request_out : Result String  -- the address that requests come from
  pub read_secret : Result String
  pub encode_offer : PayOffer → Result String
  pub marshal : PayRequest → Result String
  pub send : String → Result (Unit {0})
  pub get_response : String → Result (Bool × String)  -- the response to the data that was sent
  pub unmarshal : String → Result PayResponse
  pub receipt_data : ℤ → String → String
  pub verify : String → ℕ → String → String → Result (Unit {0})

-- What an error leaves behind. A panic takes the same value, though Go then calls neither function: what becomes
-- of the payment is meant only where the result is not a panic.
abbrev pub failed {ℓ} :
    {A : Type ℓ} {B : Type 0} → Result A → Ending → List String → (A → Outcome B) → Outcome B
failed panic ending history next = record { result = panic; ending = ending; history = history }
failed (err e) ending history next = record { result = err e; ending = ending; history = history }
failed (ok a) ending history next = next a

unfoldable pub check_peer : Calls → Result (Unit {0})
check_peer c = do
  exists ← c.has_peer
  (if exists then c.is_blocked >>= (λ blocked. fail_if blocked "peer has been blocked") else ok tt)

unfoldable pub connect : Calls → Result String
connect c = do check_peer c; c.connect_to_peer; c.new_stream; c.new_request_out

-- From the encoded request to the receipt, which `to_addr` has to have signed.
unfoldable pub exchange : Calls → Result String → ℤ → String → String → Outcome (ℕ × String)
exchange c encoded amt secret to_addr = failed encoded (reverted "") [] (λ request.
    failed (c.send request) (reverted "") ("peer fail to receive pay request" ∷ []) (λ sent.
      failed (c.get_response request) (reverted "") ("peer fail to respond pay request" ∷ [])
        (λ response.
          if not response.0
          then record {
            result = err "Peer fail to process request";
            ending = reverted "";
            history = "peer failed to process pay request" ∷ [];
          }
          else failed (c.unmarshal response.1) (reverted "")
              ("peer failed to provide valid request" ∷ [])
              (λ decoded.
                if not (decoded.network_loss == "")
                then record {
                  result = err "fail to pay, network loss presents";
                  ending = reverted decoded.network_loss;
                  history = "peer got network loss" ∷ [];
                }
                else failed
                    (c.verify (c.receipt_data amt secret) decoded.sig_type decoded.signature
                      to_addr)
                    (reverted "") ("peer fail to provide valid receipt for pay request" ∷ [])
                    (λ valid. record {
                      result = ok (decoded.sig_type, decoded.signature);
                      ending = committed;
                      history = "peer succeed to process pay request" ∷ [];
                    })))))

-- `pay` is the voucher and the offer that payMgr.PayForSelf returns.
unfoldable pub pay_for_self :
    Calls → Result (String × Option PayOffer) → String → ℤ → Outcome (ℕ × String)
pay_for_self c pay to_addr amt = failed (connect c) not_begun [] (λ from_addr.
    failed pay not_begun [] (λ paid. failed c.read_secret (reverted "") [] (λ secret.
      exchange c
        (c.marshal (record {
          original_addr = from_addr;
          original_secret = secret;
          original_amt = amt;
          offer_data = none;
          voucher = paid.0;
        }))
        amt secret to_addr)))

-- The receipt is that of the offer's recipient.
unfoldable pub pay_for_self_with_offer :
    Calls → Result (String × Option PayOffer) → PayOffer → ℤ → Outcome (ℕ × String)
pay_for_self_with_offer c pay received_offer amt = failed (connect c) not_begun [] (λ from_addr.
    failed pay not_begun [] (λ paid. failed c.read_secret (reverted "") [] (λ secret.
      exchange c
        (c.encode_offer received_offer >>= (λ offer_data. c.marshal (record {
          original_addr = from_addr;
          original_secret = secret;
          original_amt = amt;
          offer_data = some offer_data;
          voucher = paid.0;
        })))
        amt secret received_offer.dest_addr)))

-- The two payments of a node on the way; `pay` is that of payMgr.PayForOthers.
unfoldable pub pay_for_others_final :
    Calls
    → Result (String × Option PayOffer)
    → PayOffer
    → ℤ
    → String
    → String
    → Outcome (ℕ × String)
pay_for_others_final c pay sent_offer original_amt original_addr original_secret =
    failed (fail_if (not (sent_offer.dest_addr == sent_offer.res_to)) "invalid offer received")
      not_begun []
      (λ fine. failed (connect c) not_begun [] (λ from_addr. failed pay not_begun [] (λ paid.
        exchange c
          (c.marshal (record {
            original_addr = original_addr;
            original_secret = original_secret;
            original_amt = original_amt;
            offer_data = none;
            voucher = paid.0;
          }))
          original_amt original_secret sent_offer.dest_addr)))

unfoldable pub pay_for_others_intermediate :
    Calls
    → Result (String × Option PayOffer)
    → PayOffer
    → ℤ
    → String
    → String
    → Outcome (ℕ × String)
pay_for_others_intermediate c pay sent_offer original_amt original_addr original_secret =
    failed (connect c) not_begun [] (λ from_addr. failed pay not_begun [] (λ paid. elim paid.1 [
      | none ↦ record {
        result = err "expect to have received offer for proxy payment but got nil";
        ending = reverted "";
        history = [];
      }
      | some received_offer ↦
          exchange c
            (c.encode_offer received_offer >>= (λ offer_data. c.marshal (record {
              original_addr = original_addr;
              original_secret = original_secret;
              original_amt = original_amt;
              offer_data = some offer_data;
              voucher = paid.0;
            })))
            original_amt original_secret sent_offer.dest_addr
    ]))
