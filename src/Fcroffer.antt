-- ===== src/Fcroffer.antt =====
-- The payment offer as it goes over the wire, fcroffer/payoffer.go, and the JSON of an offer. The
-- structs that the code declares for encoding/json are the tags and types of their fields, and
-- encoding/json itself is the record `Json`. A big.Int that is nil is not modelled.
pub mod Paych
pub mod Piece
pub mod Survive
mod Examples
use fcr.Base.{String, ℕ, Result, List, [], ◌∷◌, ok, err, panic, some, none, text_key}
use fcr.Base.Int.{ℤ, pos}
use fcr.Base.Map.{lookup}
use fcr.Paymgr.Types.{PayOffer, Time}

-- The value of a field.
pub data Value : Type 0 where
  number : ℕ → Value
  big : ℤ → Value
  text : String → Value
  bytes : List ℕ → Value
  moment : Time → Value
  span : Time → Value

-- The type that a struct declares for a field.
pub data Kind : Type 0 where
  is_number is_big is_text is_bytes is_moment is_span : Kind

abbrev pub Object : Type 0
Object = List (String × Value)

pub record Json : Type 0 where
  pub marshal : Object → Result String
  pub unmarshal : List (String × Kind) → String → Result Object

-- The zero value of a type.
abbrev pub zero_of : Kind → Value
zero_of is_number = number 0
zero_of is_big = big (pos 0)
zero_of is_text = text ""
zero_of is_bytes = bytes []
zero_of is_moment = moment (pos 0)
zero_of is_span = span (pos 0)

-- What a struct holds once an object is read into it: the object's value under each tag, or zero.
unfoldable pub read_fields : List (String × Kind) → Object → Object
read_fields [] o = []
read_fields ((tag, k) ∷ shape) o =
    (tag, elim (lookup tag o) [ none ↦ zero_of k | some v ↦ v ]) ∷ read_fields shape o

abbrev pub number_at : String → Object → ℕ
number_at tag o = elim (lookup tag o) [ some (number n) ↦ n | _ ↦ 0 ]

abbrev pub big_at : String → Object → ℤ
big_at tag o = elim (lookup tag o) [ some (big n) ↦ n | _ ↦ pos 0 ]

abbrev pub text_at : String → Object → String
text_at tag o = elim (lookup tag o) [ some (text s) ↦ s | _ ↦ "" ]

abbrev pub bytes_at : String → Object → List ℕ
bytes_at tag o = elim (lookup tag o) [ some (bytes b) ↦ b | _ ↦ [] ]

abbrev pub moment_at : String → Object → Time
moment_at tag o = elim (lookup tag o) [ some (moment t) ↦ t | _ ↦ pos 0 ]

abbrev pub span_at : String → Object → Time
span_at tag o = elim (lookup tag o) [ some (span t) ↦ t | _ ↦ pos 0 ]

unfoldable pub to_be_signed : Json → PayOffer → Result String
to_be_signed c o = c.marshal (
    ("currency_id", number o.currency_id)
    ∷ ("src_addr", text o.src_addr)
    ∷ ("dest_addr", text o.dest_addr)
    ∷ ("ppp", big o.ppp)
    ∷ ("period", big o.period)
    ∷ ("amt", big o.amt)
    ∷ ("expiration", moment o.expiration)
    ∷ ("inactivity", span o.inactivity)
    ∷ ("res_to", text o.res_to)
    ∷ ("res_ch", text o.res_ch)
    ∷ ("res_id", number o.res_id)
    ∷ ("nonce", number o.nonce)
    ∷ [])

unfoldable pub add_signature : ℕ → List ℕ → PayOffer → PayOffer
add_signature t s o = record o { signature_type = t; signature = s }

-- The object of Encode; created_at is never set.
unfoldable pub offer_fields : PayOffer → Object
offer_fields o =
    ("currency_id", number o.currency_id)
    ∷ ("src_addr", text o.src_addr)
    ∷ ("dest_addr", text o.dest_addr)
    ∷ ("ppp", big o.ppp)
    ∷ ("period", big o.period)
    ∷ ("amt", big o.amt)
    ∷ ("created_at", moment (pos 0))
    ∷ ("expiration", moment o.expiration)
    ∷ ("inactivity", span o.inactivity)
    ∷ ("res_to", text o.res_to)
    ∷ ("res_ch", text o.res_ch)
    ∷ ("res_id", number o.res_id)
    ∷ ("nonce", number o.nonce)
    ∷ ("signature_type", number o.signature_type)
    ∷ ("signature", bytes o.signature)
    ∷ []

unfoldable pub encode : Json → PayOffer → Result String
encode c o = c.marshal (offer_fields o)

-- The struct of Decode.
unfoldable pub offer_shape : List (String × Kind)
offer_shape =
    ("currency_id", is_number)
    ∷ ("src_addr", is_text)
    ∷ ("dest_addr", is_text)
    ∷ ("ppp", is_big)
    ∷ ("period", is_big)
    ∷ ("amt", is_big)
    ∷ ("expiration", is_moment)
    ∷ ("inactivity", is_span)
    ∷ ("res_to", is_text)
    ∷ ("res_ch", is_text)
    ∷ ("res_id", is_number)
    ∷ ("nonce", is_number)
    ∷ ("signature_type", is_number)
    ∷ ("signature", is_bytes)
    ∷ []

unfoldable pub decode : Json → String → Result PayOffer
decode c d = elim (c.unmarshal offer_shape d) [
  | panic ↦ panic
  | err e ↦ err e
  | ok o ↦ ok (record {
    currency_id = number_at "currency_id" o;
    src_addr = text_at "src_addr" o;
    dest_addr = text_at "dest_addr" o;
    ppp = big_at "ppp" o;
    period = big_at "period" o;
    amt = big_at "amt" o;
    expiration = moment_at "expiration" o;
    inactivity = span_at "inactivity" o;
    res_to = text_at "res_to" o;
    res_ch = text_at "res_ch" o;
    res_id = number_at "res_id" o;
    nonce = number_at "nonce" o;
    signature_type = number_at "signature_type" o;
    signature = bytes_at "signature" o;
  })
]
