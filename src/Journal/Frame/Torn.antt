-- ===== src/Journal/Frame/Torn.antt =====
-- `read_frame` on a frame that is cut short, as a crash in the middle of an append leaves it.
use strata_db.Prelude.{
  ℕ, ◌+◌, ◌-◌, ◌^◌, ◌≤◌, ◌<◌, ◌≡◌, List, ◌++◌, append_assoc, append-nil, none, [], length,
  length-append, length-take, take, take-append_ge, lt→ltb, arith,
}
use native.Mathlib.Nat.{mod-eq_of_lt}
use native.Mathlib.Decide.{dec_lt}
use strata_db.Filesystem.Codec.{be_u32}
use strata_db.Journal.Frame.{write_frame, read_rest, read_frame}
use strata_db.Journal.Frame.RoundTrip.{
  length-header, length-write_frame, read_rest-header, read_frame-append,
}

module _ (crc32 : List ℕ → ℕ) where
  read_rest_short : (rest : List ℕ) (pos : ℕ) → length rest < 8 → read_rest crc32 rest pos ≡ none
  unfolding read_rest
  read_rest_short rest pos h = rw (lt→ltb (length rest) 8 h)

  -- A frame that keeps its header but not its whole payload is not read, whatever bytes follow it,
  -- as long as they do not make up for the payload that is missing.
  pub read_rest_cut :
      (p more : List ℕ) (n pos : ℕ)
      → length p < 2 ^ 32
      → crc32 p < 2 ^ 32
      → 8 ≤ n
      → n + length more < length (write_frame crc32 p)
      → read_rest crc32 (take n (write_frame crc32 p) ++ more) pos ≡ none
  unfolding write_frame
  read_rest_cut p more n pos hl hc h8 hn = rw (mod-eq_of_lt hl) (
      rw (← append_assoc (be_u32 (length p)) (be_u32 (crc32 p)) p) (
        rw
          (take-append_ge n (be_u32 (length p) ++ be_u32 (crc32 p)) p
            (omega (arith, length-header (length p) (crc32 p) [])))
          (rw (append_assoc (be_u32 (length p) ++ be_u32 (crc32 p)) (take k p) more) (
            rw (append_assoc (be_u32 (length p)) (be_u32 (crc32 p)) (take k p ++ more)) (
              rw (read_rest-header crc32 (length p) (crc32 p) (take k p ++ more) pos hl hc)
                (rw (lt→ltb (length (take k p ++ more)) (length p) missing)))))))
    where
      k : ℕ
      k = n - length (be_u32 (length p) ++ be_u32 (crc32 p))

      missing : length (take k p ++ more) < length p
      missing = omega (
        arith,
        length-append (take k p) more,
        length-take k p,
        length-header (length p) (crc32 p) [],
        length-write_frame crc32 p,
      )

  -- A frame that breaks off at any byte, with nothing behind it, reads as the end of the records,
  -- where its length and checksum fit 32 bits.
  pub read_frame_torn :
      (pre p : List ℕ) (n : ℕ)
      → length p < 2 ^ 32
      → crc32 p < 2 ^ 32
      → n < length (write_frame crc32 p)
      → read_frame crc32 (pre ++ take n (write_frame crc32 p)) (length pre) ≡ none
  read_frame_torn pre p n hl hc hn =
      rw (read_frame-append crc32 pre (take n (write_frame crc32 p))) (elim (dec_lt n 8) [
        | yes h ↦
            read_rest_short (take n (write_frame crc32 p)) (length pre)
              (omega (arith, length-take n (write_frame crc32 p)))
        | no h ↦
            rw (append-nil (take n (write_frame crc32 p))) at
              (read_rest_cut p [] n (length pre) hl hc (omega arith) (omega arith))
      ])

  -- A clean end.
  pub read_frame_end : (pre : List ℕ) → read_frame crc32 (pre ++ []) (length pre) ≡ none
  read_frame_end pre =
      rw (read_frame-append crc32 pre []) (read_rest_short [] (length pre) (omega arith))

  pub read_frame_cut :
      (pre p more : List ℕ) (n : ℕ)
      → length p < 2 ^ 32
      → crc32 p < 2 ^ 32
      → 8 ≤ n
      → n + length more < length (write_frame crc32 p)
      → read_frame crc32 (pre ++ (take n (write_frame crc32 p) ++ more)) (length pre) ≡ none
  read_frame_cut pre p more n hl hc h8 hn =
      rw (read_frame-append crc32 pre (take n (write_frame crc32 p) ++ more))
        (read_rest_cut p more n (length pre) hl hc h8 hn)
