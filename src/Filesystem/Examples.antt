-- ===== src/Filesystem/Examples.antt =====
-- Tests of tuple locations and page headers.
use Prim.Native.Nat.{min}
use strata_db.Prelude.{ℕ, ◌<◌, ◌^◌, ◌≡◌, List, length, ok, arith}
use strata_db.Filesystem.Loc.{TupleLoc}
use strata_db.Filesystem.Memory.{zeroed}
use strata_db.Filesystem.Header.{
  PageHeader, write_page_header, parse_header, finalize_checksum, verify_checksum,
}
use strata_db.Filesystem.Header.RoundTrip.{
  parse_header-write_page_header, verify_checksum-finalize_checksum,
}

abbrev some_loc : TupleLoc
some_loc = record { page_id = 300; slot_id = 7 }

abbrev blank_page : List ℕ
blank_page = zeroed 32

abbrev some_header : PageHeader
some_header = record { page_type = 1; format_version = 2; lsn = 0xDEADBEEF }

parse_header-write_page_header_example :
    parse_header (write_page_header some_header blank_page) ≡ ok some_header
parse_header-write_page_header_example =
    parse_header-write_page_header some_header blank_page (omega arith) (omega arith) (omega arith)
      (omega arith)

abbrev length_crc : List ℕ → ℕ
length_crc bytes = min (length bytes) 255

length_crc-u32 : (bytes : List ℕ) → length_crc bytes < 2 ^ 32
length_crc-u32 bytes = omega arith

verify_checksum-finalize_checksum_example :
    verify_checksum length_crc (finalize_checksum length_crc blank_page) 5 ≡ ok tt
verify_checksum-finalize_checksum_example =
    verify_checksum-finalize_checksum length_crc blank_page 5 length_crc-u32 (omega arith)
