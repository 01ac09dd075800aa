-- ===== src/Journal/Log.antt =====
-- crates/journal/src/{codec,error,lib}.rs: a journal of records over one file.
pub mod Replay
pub mod Crash
mod Examples
use strata_db.Prelude.{
  ℕ, zero, suc, ◌+◌, List, [], ◌∷◌, ◌++◌, Option, none, some, Bool, ◌||◌, not, length, take, drop,
  ltb, ◌==◌, if◌then◌else◌, Result, ok, err, and_then,
}
use strata_db.Filesystem.Codec.{be_u16, be_u32, from_be_bytes}
use strata_db.Journal.Frame.{write_frame, read_frame}
use strata_db.Journal.File.{File, write_all, set_len, seek_start, seek_end}

-- The texts of the messages are left out.
pub data JournalError : Type 0 where
  io : JournalError
  bad_header : JournalError
  decode_failed : JournalError

pub record Codec (R : Type 0) : Type 0 where
  pub encode : R → List ℕ
  pub decode : List ℕ → Result JournalError R

-- `BytesCodec`
abbrev pub bytes_codec : Codec (List ℕ)
bytes_codec = record { encode = λ r. r; decode = λ b. ok b }

abbrev pub magic : ℕ
magic = 0x4A524E4C

abbrev pub version : ℕ
version = 1

abbrev pub header_len : ℕ
header_len = 6

abbrev pub header : List ℕ
header = be_u32 magic ++ be_u16 version

unfoldable pub write_header : File → File
write_header f = write_all (write_all f (be_u32 magic)) (be_u16 version)

-- `read_exact` fails on a file shorter than the header.
unfoldable pub verify_header : File → Result JournalError File
verify_header f =
    let found = from_be_bytes (take 4 f.bytes) in
    let found_version = from_be_bytes (take 2 (drop 4 f.bytes)) in
    if ltb (length f.bytes) header_len
    then err io
    else if not (found == magic) || not (found_version == version)
    then err bad_header
    else ok (seek_start f header_len)

pub record Journal : Type 0 where
  pub file : File

-- `Journal::with_codec` on what is on disk; a missing file is created empty.
unfoldable pub open_journal : List ℕ → Result JournalError Journal
open_journal disk =
    let file : File = record { bytes = disk; cursor = 0 } in
    and_then (if length disk == 0 then ok (write_header file) else verify_header file)
      (λ f. ok (record { file = seek_end f }))

module _ (crc32 : List ℕ → ℕ) {R : Type 0} (codec : Codec R) where
  unfoldable pub append : R → Journal → Journal
  append r j = record { file = write_all j.file (write_frame crc32 (codec.encode r)) }

  unfoldable pub append_all : List R → Journal → Journal
  append_all [] j = j
  append_all (r ∷ rs) j = append_all rs (append r j)

  -- The iterator `Replay`, run to its end. Every frame takes 8 bytes at least, so the length of
  -- the buffer is fuel enough.
  unfoldable pub replay_from : ℕ → List ℕ → ℕ → List (Result JournalError R)
  replay_from zero buf pos = []
  replay_from (suc fuel) buf pos = elim (read_frame crc32 buf pos) [
    | none ↦ []
    | some (payload, next) ↦ codec.decode payload ∷ replay_from fuel buf next
  ]

  unfoldable pub replay : Journal → List (Result JournalError R)
  replay j = replay_from (length j.file.bytes) j.file.bytes header_len

unfoldable pub truncate : Journal → Journal
truncate j = record { file = seek_start (set_len j.file header_len) header_len }
