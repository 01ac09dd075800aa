-- ===== src/Database/Scalar.antt =====
-- crates/strata-db/src/storage/codec/scalar.rs. An integer is its two's complement bits, a float its
-- IEEE bits, both as an unsigned number of the same width; a UUID is its 16 bytes.
pub mod RoundTrip
pub mod KeyOrder
use strata_db.Prelude.{
  ℕ, zero, suc, ◌+◌, ◌-◌, ◌*◌, ◌/◌, ◌%◌, ◌^◌, List, [], ◌∷◌, Bool, true, false, ltb, ◌==◌,
  if◌then◌else◌, Decoder, ◌>>=◌, pure, fail,
}
use strata_db.Filesystem.Codec.{split_front, to_be_bytes}

pub data DecodeError : Type 0 where
  unexpected_eof : DecodeError
  invalid_bool : ℕ → DecodeError
  invalid_utf8 : DecodeError
  invalid_json : DecodeError
  trailing_bytes : DecodeError

abbrev pub take_front : ℕ → Decoder DecodeError (List ℕ) (List ℕ)
take_front = split_front unexpected_eof

-- `to_le_bytes` of an integer of `n` bytes
unfoldable pub to_le_bytes : ℕ → ℕ → List ℕ
to_le_bytes zero v = []
to_le_bytes (suc n) v = v % 256 ∷ to_le_bytes n (v / 256)

-- `from_le_bytes`
unfoldable pub from_le_bytes : List ℕ → ℕ
from_le_bytes [] = 0
from_le_bytes (b ∷ bytes) = b + 256 * from_le_bytes bytes

unfoldable pub encode_bool : Bool → List ℕ
encode_bool true = 1 ∷ []
encode_bool false = 0 ∷ []

abbrev pub bool_of_byte : List ℕ → Decoder DecodeError (List ℕ) Bool
bool_of_byte [] = fail unexpected_eof
bool_of_byte (b ∷ bytes) =
    if b == 0 then pure false else if b == 1 then pure true else fail (invalid_bool b)

unfoldable pub decode_bool : Decoder DecodeError (List ℕ) Bool
decode_bool = do bytes ← take_front 1; bool_of_byte bytes

-- An integer or float of `n` bytes.
unfoldable pub encode_bits : ℕ → ℕ → List ℕ
unfolding to_le_bytes
encode_bits n v = to_le_bytes n v

unfoldable pub decode_bits : ℕ → Decoder DecodeError (List ℕ) ℕ
unfolding from_le_bytes
decode_bits n = do bytes ← take_front n; pure (from_le_bytes bytes)

abbrev pub encode_i16 : ℕ → List ℕ
encode_i16 = encode_bits 2

abbrev pub decode_i16 : Decoder DecodeError (List ℕ) ℕ
decode_i16 = decode_bits 2

abbrev pub encode_i32 : ℕ → List ℕ
encode_i32 = encode_bits 4

abbrev pub decode_i32 : Decoder DecodeError (List ℕ) ℕ
decode_i32 = decode_bits 4

abbrev pub encode_i64 : ℕ → List ℕ
encode_i64 = encode_bits 8

abbrev pub decode_i64 : Decoder DecodeError (List ℕ) ℕ
decode_i64 = decode_bits 8

abbrev pub encode_f32 : ℕ → List ℕ
encode_f32 = encode_bits 4

abbrev pub decode_f32 : Decoder DecodeError (List ℕ) ℕ
decode_f32 = decode_bits 4

abbrev pub encode_f64 : ℕ → List ℕ
encode_f64 = encode_bits 8

abbrev pub decode_f64 : Decoder DecodeError (List ℕ) ℕ
decode_f64 = decode_bits 8

abbrev pub encode_uuid : List ℕ → List ℕ
encode_uuid bytes = bytes

abbrev pub decode_uuid : Decoder DecodeError (List ℕ) (List ℕ)
decode_uuid = take_front 16

-- `bits ^ half`, where `half` is the top bit and `bits` has no higher one.
abbrev pub flip_top : ℕ → ℕ → ℕ
flip_top half bits = if ltb bits half then bits + half else bits - half

-- The key of an integer: its sign bit flipped, big-endian.
unfoldable pub encode_key_int : ℕ → ℕ → ℕ → List ℕ
encode_key_int n half bits = to_be_bytes n (flip_top half bits)

abbrev pub encode_key_bool : Bool → List ℕ
encode_key_bool = encode_bool

abbrev pub encode_key_i16 : ℕ → List ℕ
encode_key_i16 = encode_key_int 2 (2 ^ 15)

abbrev pub encode_key_i32 : ℕ → List ℕ
encode_key_i32 = encode_key_int 4 (2 ^ 31)

abbrev pub encode_key_i64 : ℕ → List ℕ
encode_key_i64 = encode_key_int 8 (2 ^ 63)

-- The mask of a float: all ones where the sign bit is set, and the sign bit alone otherwise;
-- `bits ^ mask` for the former is what is missing to all ones.
unfoldable pub encode_key_float : ℕ → ℕ → ℕ → List ℕ
encode_key_float n half bits =
    to_be_bytes n (if ltb bits half then flip_top half bits else (2 * half - 1) - bits)

abbrev pub encode_key_f32 : ℕ → List ℕ
encode_key_f32 = encode_key_float 4 (2 ^ 31)

abbrev pub encode_key_f64 : ℕ → List ℕ
encode_key_f64 = encode_key_float 8 (2 ^ 63)

abbrev pub encode_key_uuid : List ℕ → List ℕ
encode_key_uuid bytes = bytes
