-- ===== src/Database/Text.antt =====
-- crates/strata-db/src/storage/codec/text.rs: values of variable length. `String::from_utf8` and
-- the JSON library are parameters.
pub mod RoundTrip
use strata_db.Prelude.{
  ℕ, ◌+◌, ◌%◌, ◌^◌, List, ◌++◌, length, Bool, Option, none, some, if◌then◌else◌, Decoder, ◌>>=◌,
  pure, fail,
}
use strata_db.Database.Scalar.{
  DecodeError, invalid_utf8, invalid_json, take_front, encode_bits, decode_bits,
}

unfoldable pub encoded_size_bytes : List ℕ → ℕ
encoded_size_bytes bytes = 4 + length bytes

-- `ValueCodec for Vec<u8>`: `len as u32` wraps.
unfoldable pub encode_bytes : List ℕ → List ℕ
encode_bytes bytes = encode_bits 4 (length bytes % 2 ^ 32) ++ bytes

unfoldable pub decode_bytes : Decoder DecodeError (List ℕ) (List ℕ)
decode_bytes = do len ← decode_bits 4; take_front len

-- `KeyCodec for Vec<u8>` and `String`
abbrev pub encode_key_bytes : List ℕ → List ℕ
encode_key_bytes bytes = bytes

module _ (is_utf8 : List ℕ → Bool) where
  -- `String::from_utf8`
  abbrev pub from_utf8 : List ℕ → Decoder DecodeError (List ℕ) (List ℕ)
  from_utf8 bytes = if is_utf8 bytes then pure bytes else fail invalid_utf8

  -- `ValueCodec for String`: a string is its UTF-8 bytes.
  unfoldable pub decode_string : Decoder DecodeError (List ℕ) (List ℕ)
  unfolding decode_bytes
  decode_string = do len ← decode_bits 4; bytes ← take_front len; from_utf8 bytes

module _ {J : Type 0} (to_vec : J → List ℕ) (from_slice : List ℕ → Option J) where
  -- `ValueCodec for serde_json::Value`
  unfoldable pub encode_json : J → List ℕ
  unfolding encode_bytes
  encode_json value = encode_bytes (to_vec value)

  abbrev pub parse_json : List ℕ → Decoder DecodeError (List ℕ) J
  parse_json bytes = elim (from_slice bytes) [ none ↦ fail invalid_json | some value ↦ pure value ]

  unfoldable pub decode_json : Decoder DecodeError (List ℕ) J
  decode_json = do len ← decode_bits 4; bytes ← take_front len; parse_json bytes

  abbrev pub encode_key_json : J → List ℕ
  encode_key_json value = to_vec value
