-- ===== src/Filesystem/TuplePage.antt =====
-- crates/filesystem/src/tuple/page.rs: the slotted page. A page is the list of its bytes; a read or
-- a write that leaves the page panics in the code, and the invariant of the page excludes it.
pub mod Writes
pub mod Slots
mod Examples
use strata_db.Prelude.{
  ℕ, ◌+◌, ◌-◌, ◌*◌, ◌^◌, ◌%◌, List, [], ◌∷◌, ◌++◌, Option, none, some, Bool, true, false, not,
  length, take, drop, ltb, leb, ◌==◌, if◌then◌else◌,
}
use strata_db.Filesystem.Codec.{be_u16, from_be_bytes}
use strata_db.Filesystem.Header.{new_header, write_page_header}

abbrev pub page_size : ℕ
page_size = 8192

abbrev pub off_slot_count : ℕ
off_slot_count = 21

abbrev pub off_free_start : ℕ
off_free_start = 23

abbrev pub off_free_end : ℕ
off_free_end = 25

abbrev pub slot_array_offset : ℕ
slot_array_offset = 27

abbrev pub slot_size : ℕ
slot_size = 8

unfoldable pub get_u16 : List ℕ → ℕ → ℕ
get_u16 buf off = from_be_bytes (take 2 (drop off buf))

-- `buf[off..][..n].copy_from_slice(bytes)`
unfoldable pub copy_at : ℕ → List ℕ → List ℕ → List ℕ
copy_at off bytes buf = take off buf ++ (bytes ++ drop (off + length bytes) buf)

unfoldable pub put_u16 : ℕ → ℕ → List ℕ → List ℕ
unfolding copy_at
put_u16 off v = copy_at off (be_u16 v)

-- `flags & FLAG_DELETED != 0`
abbrev pub is_deleted : ℕ → Bool
is_deleted flags = flags % 2 == 1

unfoldable pub slot_bytes : List ℕ → ℕ → Option (List ℕ)
unfolding get_u16
slot_bytes buf slot_id =
    let pos = slot_array_offset + slot_id * slot_size in
    if leb (get_u16 buf off_slot_count) slot_id
    then none
    else if is_deleted (get_u16 buf (pos + 4))
    then none
    else some (take (get_u16 buf (pos + 2)) (drop (get_u16 buf pos) buf))

-- The writes of `insert`, in order.
unfoldable pub insert_at : List ℕ → ℕ → ℕ → ℕ → List ℕ → List ℕ
unfolding copy_at put_u16
insert_at tuple slot_count free_start free_end buf =
    let tuple_off = free_end - length tuple in
    let stored = copy_at tuple_off tuple buf in
    let placed = put_u16 (free_start + 2) (length tuple) (put_u16 free_start tuple_off stored) in
    let flagged = put_u16 (free_start + 6) 0 (put_u16 (free_start + 4) 0 placed) in
    put_u16 off_free_end tuple_off (
      put_u16 off_free_start (free_start + slot_size)
        (put_u16 off_slot_count (slot_count + 1) flagged))

-- `TuplePageMut::insert`: the slot, and the page.
unfoldable pub insert : List ℕ → List ℕ → Option (ℕ × List ℕ)
unfolding insert_at
insert tuple buf =
    let slot_count = get_u16 buf off_slot_count in
    let free_start = get_u16 buf off_free_start in
    let free_end = get_u16 buf off_free_end in
    if ltb (free_end - free_start) (length tuple + slot_size)
    then none
    else some (slot_count, insert_at tuple slot_count free_start free_end buf)

-- `TUPLE_PAGE`
abbrev pub tuple_page : ℕ
tuple_page = 1

abbrev pub format_version : ℕ
format_version = 1

-- `TuplePageMut::init`
unfoldable pub init : List ℕ → List ℕ
unfolding put_u16
init buf = put_u16 off_free_end page_size (
    put_u16 off_free_start slot_array_offset
      (put_u16 off_slot_count 0 (write_page_header (new_header tuple_page format_version) buf)))

-- `TuplePageMut::free_space`
unfoldable pub free_space : List ℕ → ℕ
unfolding get_u16
free_space buf = get_u16 buf off_free_end - get_u16 buf off_free_start - slot_size

-- `TuplePageMut::delete`: whether there is such a slot, and the page.
unfoldable pub delete : ℕ → List ℕ → Bool × List ℕ
unfolding get_u16 put_u16
delete slot_id buf =
    let flags_pos = slot_array_offset + slot_id * slot_size + 4 in
    let flags = get_u16 buf flags_pos in
    if leb (get_u16 buf off_slot_count) slot_id
    then (false, buf)
    else (true, put_u16 flags_pos (if is_deleted flags then flags else flags + 1) buf)
