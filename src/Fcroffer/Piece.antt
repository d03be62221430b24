-- ===== src/Fcroffer/Piece.antt =====
-- The offer of a piece, fcroffer/pieceoffer.go. A CID is the text that it is in JSON.
use fcr.Base.{String, ℕ, Result, List, [], ◌∷◌, ok, err, panic}
use fcr.Paymgr.Types.{Time}
use fcr.Base.Int.{ℤ}
use fcr.Fcroffer.{
  Json, Object, Kind, is_text, is_number, is_big, is_bytes, is_moment, is_span, text_at, number_at,
  big_at, bytes_at, moment_at, span_at, text, number, big, bytes, moment, span,
}

pub record PieceOffer : Type 0 where
  pub id : String
  pub size : ℕ
  pub currency_id : ℕ
  pub ppb : ℤ
  pub recipient_addr : String
  pub linked_miner_key_type : ℕ
  pub linked_miner_addr : String
  pub linked_miner_proof : List ℕ
  pub expiration : Time
  pub inactivity : Time
  pub nonce : ℕ
  pub signature_type : ℕ
  pub signature : List ℕ

unfoldable pub to_be_signed : Json → PieceOffer → Result String
to_be_signed c o = c.marshal (
    ("id", text o.id)
    ∷ ("size", number o.size)
    ∷ ("currency_id", number o.currency_id)
    ∷ ("ppb", big o.ppb)
    ∷ ("recipient_addr", text o.recipient_addr)
    ∷ ("key_type", number o.linked_miner_key_type)
    ∷ ("miner_addr", text o.linked_miner_addr)
    ∷ ("miner_proof", bytes o.linked_miner_proof)
    ∷ ("expiration", moment o.expiration)
    ∷ ("inactivity", span o.inactivity)
    ∷ ("nonce", number o.nonce)
    ∷ [])

unfoldable pub add_signature : ℕ → List ℕ → PieceOffer → PieceOffer
add_signature t s o = record o { signature_type = t; signature = s }

unfoldable pub piece_fields : PieceOffer → Object
piece_fields o =
    ("id", text o.id)
    ∷ ("size", number o.size)
    ∷ ("currency_id", number o.currency_id)
    ∷ ("ppb", big o.ppb)
    ∷ ("recipient_addr", text o.recipient_addr)
    ∷ ("key_type", number o.linked_miner_key_type)
    ∷ ("miner_addr", text o.linked_miner_addr)
    ∷ ("miner_proof", bytes o.linked_miner_proof)
    ∷ ("expiration", moment o.expiration)
    ∷ ("inactivity", span o.inactivity)
    ∷ ("nonce", number o.nonce)
    ∷ ("signature_type", number o.signature_type)
    ∷ ("signature", bytes o.signature)
    ∷ []

unfoldable pub encode : Json → PieceOffer → Result String
encode c o = c.marshal (piece_fields o)

unfoldable pub piece_shape : List (String × Kind)
piece_shape =
    ("id", is_text)
    ∷ ("size", is_number)
    ∷ ("currency_id", is_number)
    ∷ ("ppb", is_big)
    ∷ ("recipient_addr", is_text)
    ∷ ("key_type", is_number)
    ∷ ("miner_addr", is_text)
    ∷ ("miner_proof", is_bytes)
    ∷ ("expiration", is_moment)
    ∷ ("inactivity", is_span)
    ∷ ("nonce", is_number)
    ∷ ("signature_type", is_number)
    ∷ ("signature", is_bytes)
    ∷ []

unfoldable pub decode : Json → String → Result PieceOffer
decode c d = elim (c.unmarshal piece_shape d) [
  | panic ↦ panic
  | err e ↦ err e
  | ok o ↦ ok (record {
    id = text_at "id" o;
    size = number_at "size" o;
    currency_id = number_at "currency_id" o;
    ppb = big_at "ppb" o;
    recipient_addr = text_at "recipient_addr" o;
    linked_miner_key_type = number_at "key_type" o;
    linked_miner_addr = text_at "miner_addr" o;
    linked_miner_proof = bytes_at "miner_proof" o;
    expiration = moment_at "expiration" o;
    inactivity = span_at "inactivity" o;
    nonce = number_at "nonce" o;
    signature_type = number_at "signature_type" o;
    signature = bytes_at "signature" o;
  })
]
