-- ===== src/Database/Text/RoundTrip.antt =====
-- What `decode` reads back of a value of variable length.
use native.Mathlib.Nat.{mod-eq_of_lt}
use mathlib.Core.Path.{subst}
use strata_db.Prelude.{
  ℕ, ◌%◌, ◌^◌, ◌<◌, ◌≡◌, refl, sym, List, [], append-nil, length, Bool, true, Option, some, ◌>>=◌,
  Result,
}
use strata_db.Prelude.Reads.{Reads, Reads-bind}
use strata_db.Filesystem.Codec.RoundTrip.{split_front-Reads}
use strata_db.Database.Scalar.{DecodeError, unexpected_eof, take_front, encode_bits, decode_bits}
use strata_db.Database.Scalar.RoundTrip.{decode_bits-encode_bits}
use strata_db.Database.Text.{
  encode_bytes, decode_bytes, from_utf8, decode_string, encode_json, decode_json, parse_json,
}

len-Reads :
    (bytes : List ℕ)
    → length bytes < 2 ^ 32
    → Reads (decode_bits 4) (encode_bits 4 (length bytes % 2 ^ 32)) (length bytes)
len-Reads bytes h =
    subst (λ l. Reads (decode_bits 4) (encode_bits 4 l) (length bytes)) (sym (mod-eq_of_lt h))
      (decode_bits-encode_bits 4 (length bytes) h)

-- A byte string of less than 4 GiB is read back, whatever follows.
pub decode_bytes-encode_bytes :
    (bytes : List ℕ) → length bytes < 2 ^ 32 → Reads decode_bytes (encode_bytes bytes) bytes
unfolding decode_bytes encode_bytes
decode_bytes-encode_bytes bytes h =
    Reads-bind (decode_bits 4) _ (len-Reads bytes h)
      (split_front-Reads unexpected_eof (length bytes) bytes refl)

parsed-Reads :
    {A : Type 0} (bytes : List ℕ) (f : List ℕ → List ℕ → Result DecodeError (A × List ℕ)) (a : A)
    → length bytes < 2 ^ 32
    → Reads (f bytes) [] a
    → Reads (decode_bits 4 >>= (λ len. take_front len >>= f)) (encode_bytes bytes) a
unfolding encode_bytes
parsed-Reads bytes f a h r = Reads-bind (decode_bits 4) _ (len-Reads bytes h) (
    subst (λ b. Reads (take_front (length bytes) >>= f) b a) (append-nil bytes)
      (Reads-bind (take_front (length bytes)) f
        (split_front-Reads unexpected_eof (length bytes) bytes refl) r))

-- A string of less than 4 GiB of valid UTF-8 is read back, whatever follows.
pub decode_string-encode_bytes :
    (is_utf8 : List ℕ → Bool) (bytes : List ℕ)
    → length bytes < 2 ^ 32
    → is_utf8 bytes ≡ true
    → Reads (decode_string is_utf8) (encode_bytes bytes) bytes
unfolding decode_string
decode_string-encode_bytes is_utf8 bytes h valid =
    parsed-Reads bytes (from_utf8 is_utf8) bytes h (record { at = λ rest. rw valid refl })

-- A JSON value of less than 4 GiB whose text the JSON library parses back is read back, whatever
-- follows.
pub decode_json-encode_json :
    {J : Type 0} (to_vec : J → List ℕ) (from_slice : List ℕ → Option J) (value : J)
    → length (to_vec value) < 2 ^ 32
    → from_slice (to_vec value) ≡ some value
    → Reads (decode_json to_vec from_slice) (encode_json to_vec from_slice value) value
unfolding decode_json encode_json
decode_json-encode_json to_vec from_slice value h parses =
    parsed-Reads (to_vec value) (parse_json to_vec from_slice) value h
      (record { at = λ rest. rw (parse_json, parses) refl })
