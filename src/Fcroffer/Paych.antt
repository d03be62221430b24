-- ===== src/Fcroffer/Paych.antt =====
-- The offer of a payment channel, fcroffer/paychoffer.go.
use fcr.Base.{String, ℕ, Result, List, [], ◌∷◌, ok, err, panic}
use fcr.Paymgr.Types.{Time}
use fcr.Fcroffer.{
  Json, Object, Kind, is_number, is_text, is_moment, is_bytes, number_at, text_at, moment_at,
  bytes_at, number, text, moment, bytes,
}

pub record PaychOffer : Type 0 where
  pub currency_id : ℕ
  pub from_addr : String
  pub to_addr : String
  pub settlement : Time
  pub expiration : Time
  pub nonce : ℕ
  pub signature_type : ℕ
  pub signature : List ℕ

unfoldable pub to_be_signed : Json → PaychOffer → Result String
to_be_signed c o = c.marshal (
    ("currency_id", number o.currency_id)
    ∷ ("from_addr", text o.from_addr)
    ∷ ("to_addr", text o.to_addr)
    ∷ ("settlement", moment o.settlement)
    ∷ ("expiration", moment o.expiration)
    ∷ ("nonce", number o.nonce)
    ∷ [])

unfoldable pub add_signature : ℕ → List ℕ → PaychOffer → PaychOffer
add_signature t s o = record o { signature_type = t; signature = s }

unfoldable pub paych_fields : PaychOffer → Object
paych_fields o =
    ("currency_id", number o.currency_id)
    ∷ ("from_addr", text o.from_addr)
    ∷ ("to_addr", text o.to_addr)
    ∷ ("settlement", moment o.settlement)
    ∷ ("expiration", moment o.expiration)
    ∷ ("nonce", number o.nonce)
    ∷ ("signature_type", number o.signature_type)
    ∷ ("signature", bytes o.signature)
    ∷ []

unfoldable pub encode : Json → PaychOffer → Result String
encode c o = c.marshal (paych_fields o)

unfoldable pub paych_shape : List (String × Kind)
paych_shape =
    ("currency_id", is_number)
    ∷ ("from_addr", is_text)
    ∷ ("to_addr", is_text)
    ∷ ("settlement", is_moment)
    ∷ ("expiration", is_moment)
    ∷ ("nonce", is_number)
    ∷ ("signature_type", is_number)
    ∷ ("signature", is_bytes)
    ∷ []

unfoldable pub decode : Json → String → Result PaychOffer
decode c d = elim (c.unmarshal paych_shape d) [
  | panic ↦ panic
  | err e ↦ err e
  | ok o ↦ ok (record {
    currency_id = number_at "currency_id" o;
    from_addr = text_at "from_addr" o;
    to_addr = text_at "to_addr" o;
    settlement = moment_at "settlement" o;
    expiration = moment_at "expiration" o;
    nonce = number_at "nonce" o;
    signature_type = number_at "signature_type" o;
    signature = bytes_at "signature" o;
  })
]
