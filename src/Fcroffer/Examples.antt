-- ===== src/Fcroffer/Examples.antt =====
-- The theorem on fcroffer/ at work on an offer of "bob" for payments to "dave".
use fcr.Base.{[], ◌∷◌, ok, ◌≡◌, refl}
use fcr.Base.Int.{pos}
use fcr.Paymgr.Types.{PayOffer}
use fcr.Fcroffer.{Json, offer_fields, read_fields, add_signature, encode, decode, to_be_signed}
use fcr.Fcroffer.Survive.{signed_pay_offer_survives}

abbrev unsigned : PayOffer
unsigned = record {
  currency_id = 1;
  src_addr = "bob";
  dest_addr = "dave";
  ppp = pos 3;
  period = pos 10;
  amt = pos 25;
  expiration = pos 100;
  inactivity = pos 40;
  res_to = "carol";
  res_ch = "ch";
  res_id = 2;
  nonce = 6;
  signature_type = 0;
  signature = [];
}

abbrev signed : PayOffer
signed = record unsigned { signature_type = 1; signature = 171 ∷ 205 ∷ [] }

abbrev wire : Json
wire = record {
  marshal = λ o. ok "offer";
  unmarshal = λ shape d. ok (read_fields shape (offer_fields signed));
}

signed_pay_offer_survives_example :
    (decode wire "offer" ≡ ok (add_signature 1 (171 ∷ 205 ∷ []) unsigned))
    × (to_be_signed wire (add_signature 1 (171 ∷ 205 ∷ []) unsigned) ≡ to_be_signed wire unsigned)
unfolding add_signature encode
signed_pay_offer_survives_example =
    signed_pay_offer_survives wire unsigned 1 (171 ∷ 205 ∷ []) "offer" (λ d e. refl) refl
