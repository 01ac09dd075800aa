-- ===== src/Journal/File.antt =====
-- The part of `std::fs::File` that the journal uses: the bytes on disk and the cursor. A write
-- past the end of the file fills the gap with zeros, as on every platform. Failing system calls
-- are not modelled.
pub mod Laws
use strata_db.Prelude.{ℕ, zero, suc, ◌+◌, ◌-◌, List, [], ◌∷◌, ◌++◌, length, take, drop}

pub record File : Type 0 where
  pub bytes : List ℕ
  pub cursor : ℕ

unfoldable pub zeros : ℕ → List ℕ
zeros zero = []
zeros (suc n) = 0 ∷ zeros n

-- `write_all` at the cursor.
unfoldable pub write_all : File → List ℕ → File
write_all f data' = record {
  bytes =
      take f.cursor f.bytes
      ++ (zeros (f.cursor - length f.bytes) ++ (data' ++ drop (f.cursor + length data') f.bytes));
  cursor = f.cursor + length data';
}

-- `set_len` cuts the file, or extends it by zeros; the cursor stays.
unfoldable pub set_len : File → ℕ → File
set_len f n = record { bytes = take n f.bytes ++ zeros (n - length f.bytes); cursor = f.cursor }

-- `seek(SeekFrom::Start(n))`
unfoldable pub seek_start : File → ℕ → File
seek_start f n = record { bytes = f.bytes; cursor = n }

-- `seek(SeekFrom::End(0))`
unfoldable pub seek_end : File → File
seek_end f = record { bytes = f.bytes; cursor = length f.bytes }
