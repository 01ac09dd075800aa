-- ===== src/Database/Examples.antt =====
-- Tests of the codecs of column values and keys.
use strata_db.Filesystem.Memory.{zeroed}
use strata_db.Database.Row.{
  RowKey, encode_row_key, decode_row_key, table_prefix, decode_row_key-encode_row_key,
}
use strata_db.Database.Interval.{Interval}
use strata_db.Prelude.{
  ◌++◌, ◌-◌, ok, ℕ, ◌^◌, ◌≡◌, refl, List, [], ◌∷◌, Bool, true, false, Option, none, some, Ordering,
  ltb, if◌then◌else◌, arith,
}
use strata_db.Prelude.Reads.{Reads}
use strata_db.Prelude.Order.{cmp_bytes}
use strata_db.Database.Scalar.{decode_i16, encode_i16, encode_key_i16, encode_key_f32}
use strata_db.Database.Scalar.RoundTrip.{decode_bits-encode_bits}
use strata_db.Database.Scalar.KeyOrder.{encode_key_int-order, encode_key_float-order}
use strata_db.Database.Text.{decode_bytes, encode_bytes, decode_string}
use strata_db.Database.Text.RoundTrip.{decode_bytes-encode_bytes, decode_string-encode_bytes}

decode_bits-encode_bits_example : Reads decode_i16 (encode_i16 65535) 65535
decode_bits-encode_bits_example = decode_bits-encode_bits 2 65535 (omega arith)

-- Minus one comes before one.
encode_key_int-order_example : cmp_bytes (encode_key_i16 65535) (encode_key_i16 1) ≡ Ordering.lt
encode_key_int-order_example =
    encode_key_int-order 2 (2 ^ 15) 65535 1 refl (omega arith) (omega arith)

-- -2.0 comes before -1.0.
encode_key_float-order_example :
    cmp_bytes (encode_key_f32 0xC0000000) (encode_key_f32 0xBF800000) ≡ Ordering.lt
encode_key_float-order_example =
    encode_key_float-order 4 (2 ^ 31) 0xC0000000 0xBF800000 refl (omega arith) (omega arith)

decode_bytes-encode_bytes_example : Reads decode_bytes (encode_bytes (7 ∷ 8 ∷ [])) (7 ∷ 8 ∷ [])
decode_bytes-encode_bytes_example = decode_bytes-encode_bytes (7 ∷ 8 ∷ []) (omega arith)

-- ASCII.
abbrev is_ascii : List ℕ → Bool
is_ascii [] = true
is_ascii (b ∷ bytes) = if ltb b 128 then is_ascii bytes else false

decode_string-encode_bytes_example :
    Reads (decode_string is_ascii) (encode_bytes (104 ∷ 105 ∷ [])) (104 ∷ 105 ∷ [])
decode_string-encode_bytes_example =
    decode_string-encode_bytes is_ascii (104 ∷ 105 ∷ []) (omega arith) refl

-- JSON numbers of one digit.
abbrev digit_to_vec : ℕ → List ℕ
digit_to_vec d = d ∷ []

abbrev digit_from_slice : List ℕ → Option ℕ
digit_from_slice [] = none
digit_from_slice (d ∷ rest) = some d

abbrev some_row : RowKey
some_row = record {
  project_id = zeroed 16;
  dataset_id = zeroed 16;
  table_id = zeroed 16;
  truncation_id = 3;
  user_key = 9 ∷ [];
}

decode_row_key-encode_row_key_example :
    (decode_row_key (encode_row_key some_row) ≡ ok some_row)
    × (encode_row_key some_row ≡ table_prefix (zeroed 16) (zeroed 16) (zeroed 16) 3 ++ (9 ∷ []))
decode_row_key-encode_row_key_example =
    decode_row_key-encode_row_key some_row refl refl refl (omega arith)

-- One month and minus one microsecond.
abbrev some_interval : Interval
some_interval = record { months = 1; days = 0; micros = 2 ^ 64 - 1 }
