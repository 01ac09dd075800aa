-- ===== src/Database/Scalar/RoundTrip.antt =====
-- What `decode` reads back of a scalar.
use native.Mathlib.Nat.{pow-suc}
use mathlib.Core.Path.{subst}
use strata_db.Prelude.{ℕ, zero, suc, ◌/◌, ◌^◌, ◌<◌, ◌≡◌, refl, length, Bool, arith}
use strata_db.Prelude.Reads.{Reads, Reads-map}
use strata_db.Filesystem.Codec.{split_front}
use strata_db.Filesystem.Codec.RoundTrip.{split_front-Reads}
use strata_db.Database.Scalar.{
  unexpected_eof, take_front, to_le_bytes, from_le_bytes, encode_bits, decode_bits, encode_bool,
  decode_bool,
}

length-to_le_bytes : (n v : ℕ) → length (to_le_bytes n v) ≡ n
unfolding to_le_bytes
length-to_le_bytes zero v = refl
length-to_le_bytes (suc n) v = omega (arith, length-to_le_bytes n (v / 256))

from_le_bytes-to_le_bytes : (n v : ℕ) → v < 256 ^ n → from_le_bytes (to_le_bytes n v) ≡ v
unfolding to_le_bytes from_le_bytes
from_le_bytes-to_le_bytes zero v h = omega arith
from_le_bytes-to_le_bytes (suc n) v h =
    omega (arith, from_le_bytes-to_le_bytes n (v / 256) (omega (arith, pow-suc 256 n)))

-- An integer or float of `n` bytes that fits them is read back from its little-endian bytes,
-- whatever follows.
pub decode_bits-encode_bits : (n v : ℕ) → v < 256 ^ n → Reads (decode_bits n) (encode_bits n v) v
unfolding decode_bits encode_bits
decode_bits-encode_bits n v h =
    subst (Reads (decode_bits n) (encode_bits n v)) (from_le_bytes-to_le_bytes n v h) (
      Reads-map (take_front n) from_le_bytes
        (split_front-Reads unexpected_eof n (to_le_bytes n v) (length-to_le_bytes n v)))

pub decode_bool-encode_bool : (b : Bool) → Reads decode_bool (encode_bool b) b
unfolding decode_bool encode_bool split_front
decode_bool-encode_bool b = record { at = λ rest. ground arith }
