-- ===== src/Filesystem/Codec.antt =====
-- crates/filesystem/src/codec.rs, and the `to_be_bytes` / `from_be_bytes` of Rust's integers.
-- A byte is a number below 256; a byte string is a list of them. An `encode` is modelled by the
-- bytes that it appends to its output, a `decode` by a `Decoder` over the bytes that are left.
pub mod RoundTrip
use mathlib.Core.List.{foldl}
use strata_db.Prelude.{
  ℕ, zero, suc, ◌+◌, ◌*◌, ◌/◌, ◌%◌, ◌^◌, ◌<◌, List, [], ◌∷◌, ◌++◌, length, take, drop, ltb,
  if◌then◌else◌, Result, ok, err, Decoder, ◌>>=◌, pure,
}

abbrev pub IsByte : ℕ → Type 0
IsByte b = b < 256

-- `v.to_be_bytes()` for an unsigned integer of `n` bytes: the most significant byte first.
unfoldable pub to_be_bytes : ℕ → ℕ → List ℕ
to_be_bytes zero v = []
to_be_bytes (suc n) v = to_be_bytes n (v / 256) ++ (v % 256 ∷ [])

-- `from_be_bytes`
unfoldable pub from_be_bytes : List ℕ → ℕ
from_be_bytes = foldl (λ (acc b : ℕ). acc * 256 + b) 0

abbrev pub be_u8 : ℕ → List ℕ
be_u8 v = v ∷ []

abbrev pub be_u16 : ℕ → List ℕ
be_u16 = to_be_bytes 2

abbrev pub be_u32 : ℕ → List ℕ
be_u32 = to_be_bytes 4

abbrev pub be_u64 : ℕ → List ℕ
be_u64 = to_be_bytes 8

pub data DecodeError : Type 0 where
  unexpected_eof : DecodeError
  bad_magic : ℕ → ℕ → DecodeError
  unsupported_version : ℕ → DecodeError
  unknown_op_type : ℕ → DecodeError

-- Split `n` bytes off the front, or fail with `e`: the three crates' `take` helpers.
unfoldable pub split_front : {E : Type 0} → E → ℕ → Decoder E (List ℕ) (List ℕ)
split_front e n bytes = if ltb (length bytes) n then err e else ok (take n bytes, drop n bytes)

-- An integer of `n` bytes.
unfoldable pub read_be : {E : Type 0} → E → ℕ → Decoder E (List ℕ) ℕ
unfolding split_front
read_be e n = do bytes ← split_front e n; pure (from_be_bytes bytes)

abbrev pub take_bytes : ℕ → Decoder DecodeError (List ℕ) (List ℕ)
take_bytes = split_front unexpected_eof

abbrev pub get_u8 : Decoder DecodeError (List ℕ) ℕ
get_u8 = read_be unexpected_eof 1

abbrev pub get_u16 : Decoder DecodeError (List ℕ) ℕ
get_u16 = read_be unexpected_eof 2

abbrev pub get_u32 : Decoder DecodeError (List ℕ) ℕ
get_u32 = read_be unexpected_eof 4

abbrev pub get_u64 : Decoder DecodeError (List ℕ) ℕ
get_u64 = read_be unexpected_eof 8

-- `put_bytes`: a `u32` length, which wraps at 2^32, and the bytes.
unfoldable pub put_bytes : List ℕ → List ℕ
put_bytes value = be_u32 (length value % 2 ^ 32) ++ value

unfoldable pub get_bytes : Decoder DecodeError (List ℕ) (List ℕ)
get_bytes = do len ← get_u32; take_bytes len
