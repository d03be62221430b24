-- ===== src/Fcroffer/Survive.antt =====
-- What an offer is after the wire: what its signer signed is what the other side verifies.
use fcr.Base.{◌≡◌, ok, String, ℕ, List, refl}
use fcr.Paymgr.Types.{PayOffer}
use fcr.Fcroffer
use fcr.Fcroffer.Paych
use fcr.Fcroffer.Piece
use fcr.Fcroffer.Paych.{PaychOffer, paych_fields, paych_shape}
use fcr.Fcroffer.Piece.{PieceOffer, piece_fields, piece_shape}
use fcr.Fcroffer.{Json, offer_fields, offer_shape, read_fields, Object, Kind}

-- encoding/json on one object: what it wrote is what it reads into a struct.
abbrev pub ReadsBack : Json → Object → List (String × Kind) → Type 0
ReadsBack c o shape =
    (d : String) → c.marshal o ≡ ok d → c.unmarshal shape d ≡ ok (read_fields shape o)

-- A payment offer that is signed, encoded and decoded is the offer with that signature, and the data to be
-- signed are the data that were, where encoding/json reads back what it wrote of this offer.
pub signed_pay_offer_survives :
    (c : Json) (o : PayOffer) (t : ℕ) (s : List ℕ) (d : String)
    → ReadsBack c (offer_fields (Fcroffer.add_signature t s o)) offer_shape
    → Fcroffer.encode c (Fcroffer.add_signature t s o) ≡ ok d
    → (Fcroffer.decode c d ≡ ok (Fcroffer.add_signature t s o))
      × (Fcroffer.to_be_signed c (Fcroffer.add_signature t s o) ≡ Fcroffer.to_be_signed c o)
unfolding Fcroffer.decode Fcroffer.encode Fcroffer.add_signature Fcroffer.to_be_signed offer_shape
    offer_fields read_fields
signed_pay_offer_survives c o t s d back e = (rw (Fcroffer.decode, back d e) refl, refl)

signed_paych_offer_survives :
    (c : Json) (o : PaychOffer) (t : ℕ) (s : List ℕ) (d : String)
    → ReadsBack c (paych_fields (Paych.add_signature t s o)) paych_shape
    → Paych.encode c (Paych.add_signature t s o) ≡ ok d
    → (Paych.decode c d ≡ ok (Paych.add_signature t s o))
      × (Paych.to_be_signed c (Paych.add_signature t s o) ≡ Paych.to_be_signed c o)
unfolding Paych.decode Paych.encode Paych.add_signature Paych.to_be_signed paych_shape paych_fields
    read_fields
signed_paych_offer_survives c o t s d back e = (rw (Paych.decode, back d e) refl, refl)

signed_piece_offer_survives :
    (c : Json) (o : PieceOffer) (t : ℕ) (s : List ℕ) (d : String)
    → ReadsBack c (piece_fields (Piece.add_signature t s o)) piece_shape
    → Piece.encode c (Piece.add_signature t s o) ≡ ok d
    → (Piece.decode c d ≡ ok (Piece.add_signature t s o))
      × (Piece.to_be_signed c (Piece.add_signature t s o) ≡ Piece.to_be_signed c o)
unfolding Piece.decode Piece.encode Piece.add_signature Piece.to_be_signed piece_shape piece_fields
    read_fields
signed_piece_offer_survives c o t s d back e = (rw (Piece.decode, back d e) refl, refl)
