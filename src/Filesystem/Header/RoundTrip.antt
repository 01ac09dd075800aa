-- ===== src/Filesystem/Header/RoundTrip.antt =====
-- What a page header check accepts.
use strata_db.Prelude.{
  ℕ, ◌+◌, ◌^◌, ◌<◌, ◌≤◌, ◌≡◌, refl, sym, ap, ◌∙◌, List, ◌++◌, append_assoc, length, take, drop,
  ltb-eq_false, take-append, drop-append, length-append, length-drop, length-take_le, ◌==◌, ok, err,
  if◌then◌else◌, not, arith,
}
use strata_db.Filesystem.Codec.{be_u32, to_be_bytes, from_be_bytes}
use strata_db.Filesystem.Codec.RoundTrip.{length-to_be_bytes, from_be_bytes-to_be_bytes}
use strata_db.Filesystem.Header.{
  PageError, checksum_failed, PageHeader, header_bytes, write_page_header, parse_header, checksum,
  finalize_checksum, verify_checksum, off_checksum, page_header_len,
}

-- A header whose fields fit their widths, written onto a page that has room for it, is read back.
pub parse_header-write_page_header :
    (h : PageHeader) (page : List ℕ)
    → h.page_type < 2 ^ 16
    → h.format_version < 2 ^ 16
    → h.lsn < 2 ^ 64
    → page_header_len ≤ length page
    → parse_header (write_page_header h page) ≡ ok h
unfolding parse_header write_page_header header_bytes to_be_bytes from_be_bytes
parse_header-write_page_header h page ht hv hl room =
    rw
      (ltb-eq_false (length (header_bytes h ++ drop off_checksum page)) page_header_len
        (omega (arith, length-drop off_checksum page)))
      (λ i. ok (record {
        page_type = from_be_bytes-to_be_bytes 2 h.page_type ht i;
        format_version = from_be_bytes-to_be_bytes 2 h.format_version hv i;
        lsn = from_be_bytes-to_be_bytes 8 h.lsn hl i;
      }))

module _ (front field tail : List ℕ) (hf : length front ≡ off_checksum)
    (hd : length field ≡ 4) where
  drop-field : drop (off_checksum + 4) (front ++ (field ++ tail)) ≡ tail
  drop-field =
      ap (drop 21) (sym (append_assoc front field tail))
      ∙ drop-append 21 (front ++ field) tail (omega (arith, length-append front field))

  take-field : take 4 (drop off_checksum (front ++ (field ++ tail))) ≡ field
  take-field = ap (take 4) (drop-append 17 front (field ++ tail) hf) ∙ take-append 4 field tail hd

  checksum-field :
      (crc : List ℕ → ℕ) → checksum crc (front ++ (field ++ tail)) ≡ crc (front ++ tail)
  unfolding checksum
  checksum-field crc = λ i. crc (take-append 17 front (field ++ tail) hf i ++ drop-field i)

accepted : (c s : ℕ) (e : PageError) → s ≡ c → (if not (c == s) then err e else ok tt) ≡ ok tt
accepted c s e h = ground (arith, h)

-- A page that was finalized passes the check, where the checksum has 32 bits: what the checksum
-- field held before makes no difference.
pub verify_checksum-finalize_checksum :
    (crc : List ℕ → ℕ) (page : List ℕ) (id : ℕ)
    → ((bytes : List ℕ) → crc bytes < 2 ^ 32)
    → page_header_len ≤ length page
    → verify_checksum crc (finalize_checksum crc page) id ≡ ok tt
unfolding verify_checksum finalize_checksum
verify_checksum-finalize_checksum crc page id bound room =
    rw (same, verify_checksum, finalize_checksum)
      (accepted (checksum crc page) _ (checksum_failed id) stored)
  where
    front : List ℕ
    front = take off_checksum page

    tail : List ℕ
    tail = drop (off_checksum + 4) page

    field : List ℕ
    field = be_u32 (checksum crc page)

    hf : length front ≡ off_checksum
    hf = length-take_le off_checksum page (omega arith)

    same : checksum crc (front ++ (field ++ tail)) ≡ checksum crc page
    same =
        checksum-field front field tail hf (length-to_be_bytes 4 (checksum crc page)) crc
        ∙ unfold checksum in refl

    stored :
        from_be_bytes (take 4 (drop off_checksum (front ++ (field ++ tail)))) ≡ checksum crc page
    stored =
        ap from_be_bytes (take-field front field tail hf (length-to_be_bytes 4 (checksum crc page)))
        ∙ from_be_bytes-to_be_bytes 4 (checksum crc page) (unfold checksum in bound _)
