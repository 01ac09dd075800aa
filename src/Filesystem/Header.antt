-- ===== src/Filesystem/Header.antt =====
-- crates/filesystem/src/page/header.rs: the page header, and the checksum over the rest of the page.
-- `crc32c_append` over both parts of the page is the parameter `crc` of their concatenation.
pub mod RoundTrip
use strata_db.Prelude.{
  ℕ, ◌+◌, ◌^◌, ◌%◌, List, [], ◌∷◌, ◌++◌, Bool, ◌||◌, not, length, take, drop, ltb, ◌==◌,
  if◌then◌else◌, Result, ok, err,
}
use strata_db.Filesystem.Codec.{be_u16, be_u32, be_u64, to_be_bytes, from_be_bytes}

-- The errors of `Error` that a header check gives.
pub data PageError : Type 0 where
  bad_magic : PageError
  bad_header_version : ℕ → PageError
  checksum_failed : ℕ → PageError

abbrev pub page_magic : ℕ
page_magic = 0x53544442

abbrev pub header_version : ℕ
header_version = 1

abbrev pub page_header_len : ℕ
page_header_len = 21

abbrev pub off_checksum : ℕ
off_checksum = 17

pub record PageHeader : Type 0 where
  pub page_type : ℕ
  pub format_version : ℕ
  pub lsn : ℕ

-- `PageHeader::new`
abbrev pub new_header : ℕ → ℕ → PageHeader
new_header page_type format_version = record {
  page_type = page_type;
  format_version = format_version;
  lsn = 0;
}

-- The bytes in front of the checksum.
unfoldable pub header_bytes : PageHeader → List ℕ
header_bytes h =
    be_u32 page_magic
    ++ ((header_version ∷ []) ++ (be_u16 h.page_type ++ (be_u16 h.format_version ++ be_u64 h.lsn)))

-- `PageHeader::write` on a page that holds a header
unfoldable pub write_page_header : PageHeader → List ℕ → List ℕ
unfolding header_bytes
write_page_header h page = header_bytes h ++ drop off_checksum page

-- `PageHeader::parse`
unfoldable pub parse_header : List ℕ → Result PageError PageHeader
parse_header page =
    let found_version = from_be_bytes (take 1 (drop 4 page)) in
    if ltb (length page) page_header_len || not (from_be_bytes (take 4 page) == page_magic)
    then err bad_magic
    else if not (found_version == header_version)
    then err (bad_header_version found_version)
    else ok (record {
      page_type = from_be_bytes (take 2 (drop 5 page));
      format_version = from_be_bytes (take 2 (drop 7 page));
      lsn = from_be_bytes (take 8 (drop 9 page));
    })

module _ (crc : List ℕ → ℕ) where
  unfoldable pub checksum : List ℕ → ℕ
  checksum page = crc (take off_checksum page ++ drop (off_checksum + 4) page)

  unfoldable pub finalize_checksum : List ℕ → List ℕ
  unfolding checksum
  finalize_checksum page =
      take off_checksum page ++ (be_u32 (checksum page) ++ drop (off_checksum + 4) page)

  unfoldable pub verify_checksum : List ℕ → ℕ → Result PageError Unit
  unfolding checksum
  verify_checksum page id =
      let stored = from_be_bytes (take 4 (drop off_checksum page)) in
      if not (checksum page == stored) then err (checksum_failed id) else ok tt
