-- ===== src/Journal/Frame/RoundTrip.antt =====
-- `read_frame` on what `write_frame` wrote.
use strata_db.Prelude.{
  ℕ, ◌+◌, ◌%◌, ◌^◌, ◌<◌, ◌≡◌, refl, ap, ◌∙◌, List, ◌++◌, append_assoc, none, some, length,
  length-append, take, drop, take-append, drop-append, ltb, ◌==◌, if◌then◌else◌, ltb-eq_false,
  arith,
}
use native.Mathlib.Nat.{mod-eq_of_lt}
use strata_db.Filesystem.Codec.{be_u32, from_be_bytes}
use strata_db.Filesystem.Codec.RoundTrip.{length-to_be_bytes, from_be_bytes-to_be_bytes}
use strata_db.Journal.Frame.{write_frame, read_rest, read_frame}

-- The header fields of bytes that start with two `u32`s and go on with `more`.
module _ (len crc : ℕ) (more : List ℕ) where
  header_len : len < 2 ^ 32 → from_be_bytes (take 4 (be_u32 len ++ (be_u32 crc ++ more))) ≡ len
  header_len h =
      rw (take-append 4 (be_u32 len) (be_u32 crc ++ more) (length-to_be_bytes 4 len))
        (from_be_bytes-to_be_bytes 4 len h)

  header_crc :
      crc < 2 ^ 32 → from_be_bytes (take 4 (drop 4 (be_u32 len ++ (be_u32 crc ++ more)))) ≡ crc
  header_crc h = rw (drop-append 4 (be_u32 len) (be_u32 crc ++ more) (length-to_be_bytes 4 len)) (
      rw (take-append 4 (be_u32 crc) more (length-to_be_bytes 4 crc))
        (from_be_bytes-to_be_bytes 4 crc h))

  pub length-header : length (be_u32 len ++ be_u32 crc) ≡ 8
  length-header =
      rw length-append (omega (arith, length-to_be_bytes 4 len, length-to_be_bytes 4 crc))

  header_payload : drop 8 (be_u32 len ++ (be_u32 crc ++ more)) ≡ more
  header_payload =
      rw (← append_assoc (be_u32 len) (be_u32 crc) more)
        (drop-append 8 (be_u32 len ++ be_u32 crc) more length-header)

  pub length-header-append : length (be_u32 len ++ (be_u32 crc ++ more)) ≡ length more + 8
  length-header-append =
      rw (← append_assoc (be_u32 len) (be_u32 crc) more)
        (omega (arith, length-append (be_u32 len ++ be_u32 crc) more, length-header))

module _ (crc32 : List ℕ → ℕ) where
  pub length-write_frame : (p : List ℕ) → length (write_frame crc32 p) ≡ length p + 8
  unfolding write_frame
  length-write_frame p = length-header-append (length p % 2 ^ 32) (crc32 p) p

  -- What `read_frame` does behind a header that names `len` and `crc`.
  pub read_rest-header :
      (len crc : ℕ) (more : List ℕ) (pos : ℕ)
      → len < 2 ^ 32
      → crc < 2 ^ 32
      → read_rest crc32 (be_u32 len ++ (be_u32 crc ++ more)) pos ≡ (
          if ltb (length more) len
          then none
          else if crc32 (take len more) == crc
          then some (take len more, pos + 8 + len)
          else none)
  unfolding read_rest
  read_rest-header len crc more pos hl hc = rw (header_len len crc more hl) (
      rw (header_crc len crc more hc)
        (rw (header_payload len crc more) (rw (length-header-append len crc more) (ground arith))))

  -- Bytes before the position do not matter.
  pub read_frame-append :
      (pre rest : List ℕ)
      → read_frame crc32 (pre ++ rest) (length pre) ≡ read_rest crc32 rest (length pre)
  unfolding read_frame
  read_frame-append pre rest =
      rw (ltb-eq_false (length (pre ++ rest)) (length pre) (omega (arith, length-append pre rest)))
        (rw (drop-append (length pre) pre rest refl))

  read_rest-write_frame :
      (p rest : List ℕ) (pos : ℕ)
      → length p < 2 ^ 32
      → crc32 p < 2 ^ 32
      → read_rest crc32 (write_frame crc32 p ++ rest) pos ≡ some (p, pos + 8 + length p)
  unfolding write_frame
  read_rest-write_frame p rest pos hl hc = rw (mod-eq_of_lt hl) (
      rw (append_assoc (be_u32 (length p)) (be_u32 (crc32 p) ++ p) rest) (
        rw (append_assoc (be_u32 (crc32 p)) p rest) (
          rw (read_rest-header (length p) (crc32 p) (p ++ rest) pos hl hc)
            (rw (take-append (length p) p rest refl) (ground (arith, length-append p rest))))))

  -- A frame whose length and checksum fit 32 bits is read back from anywhere in a buffer, with the
  -- position just behind it.
  pub read_frame-write_frame :
      (pre p rest : List ℕ)
      → length p < 2 ^ 32
      → crc32 p < 2 ^ 32
      → read_frame crc32 (pre ++ (write_frame crc32 p ++ rest)) (length pre)
        ≡ some (p, length (pre ++ write_frame crc32 p))
  read_frame-write_frame pre p rest hl hc =
      rw (read_frame-append pre (write_frame crc32 p ++ rest)) (
        read_rest-write_frame p rest (length pre) hl hc
        ∙ ap (λ (n : ℕ). some (p, n))
            (omega (arith, length-append pre (write_frame crc32 p), length-write_frame p)))
