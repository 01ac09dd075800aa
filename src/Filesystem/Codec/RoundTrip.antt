-- ===== src/Filesystem/Codec/RoundTrip.antt =====
-- What the decoders of codec.rs read back, and the shape of what is written.
use mathlib.Core.List.{foldl-append}
use mathlib.Core.Path.{subst}
use native.Mathlib.Nat.{pow-suc, mod-eq_of_lt}
use strata_db.Prelude.{
  ℕ, zero, suc, ◌+◌, ◌/◌, ◌%◌, ◌^◌, ◌<◌, ◌≡◌, refl, List, ◌++◌, length, length-append, length-drop,
  take-append, drop-append, ltb-eq_false, All, All-append, arith, pure,
}
use strata_db.Prelude.Reads.{
  Reads, Reads-bind, Reads-map, Consumes, Consumes-bind, Consumes-pure, Consumes-weaken,
}
use strata_db.Filesystem.Codec.{
  IsByte, unexpected_eof, get_u8, get_u64, get_u32, take_bytes, to_be_bytes, from_be_bytes, be_u8,
  be_u32, be_u64, split_front, read_be, put_bytes, get_bytes,
}

pub length-to_be_bytes : (n v : ℕ) → length (to_be_bytes n v) ≡ n
unfolding to_be_bytes
length-to_be_bytes zero v = refl
length-to_be_bytes (suc n) v = rw length-append (omega (arith, length-to_be_bytes n (v / 256)))

pub to_be_bytes-IsByte : (n v : ℕ) → All IsByte (to_be_bytes n v)
unfolding to_be_bytes
to_be_bytes-IsByte zero v = tt
to_be_bytes-IsByte (suc n) v =
    All-append IsByte (to_be_bytes n (v / 256)) _ (to_be_bytes-IsByte n (v / 256)) (omega arith, tt)

-- An integer that fits its width is read back from its bytes.
pub from_be_bytes-to_be_bytes : (n v : ℕ) → v < 256 ^ n → from_be_bytes (to_be_bytes n v) ≡ v
unfolding to_be_bytes from_be_bytes
from_be_bytes-to_be_bytes zero v h = omega arith
from_be_bytes-to_be_bytes (suc n) v h =
    rw foldl-append
      (omega (arith, from_be_bytes-to_be_bytes n (v / 256) (omega (arith, pow-suc 256 n))))

module _ {E : Type 0} (e : E) where
  pub split_front-Reads :
      (n : ℕ) (bytes : List ℕ) → length bytes ≡ n → Reads (split_front e n) bytes bytes
  unfolding split_front
  split_front-Reads n bytes h = record {
    at = λ rest.
        rw (ltb-eq_false (length (bytes ++ rest)) n (omega (arith, length-append bytes rest)))
          (rw (take-append n bytes rest h, drop-append n bytes rest h));
  }

  pub read_be-Reads : (n v : ℕ) → v < 256 ^ n → Reads (read_be e n) (to_be_bytes n v) v
  unfolding read_be
  read_be-Reads n v h =
      subst (Reads (read_be e n) (to_be_bytes n v)) (from_be_bytes-to_be_bytes n v h) (
        Reads-map (split_front e n) from_be_bytes
          (split_front-Reads n (to_be_bytes n v) (length-to_be_bytes n v)))

pub get_u8-Reads : (v : ℕ) → v < 256 → Reads get_u8 (be_u8 v) v
unfolding to_be_bytes
get_u8-Reads v h = rw (mod-eq_of_lt h) at (read_be-Reads unexpected_eof 1 v h)

pub get_u32-Reads : (v : ℕ) → v < 2 ^ 32 → Reads get_u32 (be_u32 v) v
get_u32-Reads v h = read_be-Reads unexpected_eof 4 v h

pub get_u64-Reads : (v : ℕ) → v < 2 ^ 64 → Reads get_u64 (be_u64 v) v
get_u64-Reads v h = read_be-Reads unexpected_eof 8 v h

-- A byte string shorter than 4 GiB is read back from its length-prefixed form.
pub get_bytes-put_bytes :
    (value : List ℕ) → length value < 2 ^ 32 → Reads get_bytes (put_bytes value) value
unfolding get_bytes put_bytes
get_bytes-put_bytes value h =
    Reads-bind get_u32 take_bytes (get_u32-Reads (length value % 2 ^ 32) (omega arith))
      (split_front-Reads unexpected_eof (length value % 2 ^ 32) value (omega arith))

module _ {E : Type 0} (e : E) where
  pub split_front-Consumes : (n : ℕ) → Consumes n (split_front e n)
  unfolding split_front
  split_front-Consumes n = record { at = λ w a rest h. ground (arith, length-drop n w) }

  pub read_be-Consumes : (n : ℕ) → Consumes n (read_be e n)
  unfolding read_be
  read_be-Consumes n = Consumes-weaken (read_be e n) (n + 0) n (omega arith) (
      Consumes-bind (split_front e n) (λ b. pure (from_be_bytes b)) n 0 (split_front-Consumes n)
        (λ b. Consumes-pure (from_be_bytes b)))

pub get_bytes-Consumes : Consumes 4 get_bytes
unfolding get_bytes
get_bytes-Consumes =
    Consumes-bind get_u32 take_bytes 4 0 (read_be-Consumes unexpected_eof 4) (λ n.
      Consumes-weaken (take_bytes n) n 0 (omega arith) (split_front-Consumes unexpected_eof n))
