-- ===== src/Journal/Frame.antt =====
-- crates/journal/src/frame.rs. `crc32` stands for `crc32fast::hash`, a function of that crate;
-- that it returns a `u32` is a hypothesis of the lemmas that need it.
pub mod RoundTrip
pub mod Torn
use strata_db.Prelude.{
  ℕ, ◌+◌, ◌%◌, ◌^◌, List, ◌++◌, Option, none, some, length, take, drop, ltb, ◌==◌, if◌then◌else◌,
}
use strata_db.Filesystem.Codec.{be_u32, from_be_bytes}

abbrev pub frame_header_len : ℕ
frame_header_len = 8

module _ (crc32 : List ℕ → ℕ) where
  -- `payload.len() as u32` wraps at 2^32.
  unfoldable pub write_frame : List ℕ → List ℕ
  write_frame payload = be_u32 (length payload % 2 ^ 32) ++ (be_u32 (crc32 payload) ++ payload)

  -- The checks of `read_frame` behind the slice `buf.get(pos..)`.
  unfoldable pub read_rest : List ℕ → ℕ → Option (List ℕ × ℕ)
  read_rest rest pos =
      let len = from_be_bytes (take 4 rest) in
      let crc = from_be_bytes (take 4 (drop 4 rest)) in
      let payload = take len (drop frame_header_len rest) in
      if ltb (length rest) frame_header_len
      then none
      else if ltb (length rest) (frame_header_len + len)
      then none
      else if crc32 payload == crc
      then some (payload, pos + frame_header_len + len)
      else none

  unfoldable pub read_frame : List ℕ → ℕ → Option (List ℕ × ℕ)
  unfolding read_rest
  read_frame buf pos = if ltb (length buf) pos then none else read_rest (drop pos buf) pos
