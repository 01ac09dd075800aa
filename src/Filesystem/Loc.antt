-- ===== src/Filesystem/Loc.antt =====
-- crates/filesystem/src/tuple/loc.rs: the address of a tuple.
use strata_db.Prelude.{
  ℕ, ◌^◌, ◌<◌, ◌≡◌, List, ◌++◌, Option, none, some, length, take, drop, ◌==◌, if◌then◌else◌, not,
  length-append, arith,
}
use strata_db.Filesystem.Codec.{be_u16, be_u64, to_be_bytes, from_be_bytes}
use strata_db.Filesystem.Codec.RoundTrip.{length-to_be_bytes, from_be_bytes-to_be_bytes}

pub record TupleLoc : Type 0 where
  pub page_id : ℕ
  pub slot_id : ℕ

abbrev pub encoded_len : ℕ
encoded_len = 10

unfoldable pub encode_loc : TupleLoc → List ℕ
encode_loc loc = be_u64 loc.page_id ++ be_u16 loc.slot_id

unfoldable pub decode_loc : List ℕ → Option TupleLoc
decode_loc bytes =
    if not (length bytes == encoded_len)
    then none
    else some (record {
      page_id = from_be_bytes (take 8 bytes);
      slot_id = from_be_bytes (take 2 (drop 8 bytes));
    })

length-encode_loc : (loc : TupleLoc) → length (encode_loc loc) ≡ encoded_len
unfolding encode_loc
length-encode_loc loc = omega (
  arith,
  length-append (be_u64 loc.page_id) (be_u16 loc.slot_id),
  length-to_be_bytes 8 loc.page_id,
  length-to_be_bytes 2 loc.slot_id,
)

-- A location whose page id fits 64 bits and whose slot id fits 16 is read back from its ten bytes.
pub decode_loc-encode_loc :
    (loc : TupleLoc)
    → loc.page_id < 2 ^ 64
    → loc.slot_id < 2 ^ 16
    → (length (encode_loc loc) ≡ encoded_len) × (decode_loc (encode_loc loc) ≡ some loc)
unfolding decode_loc encode_loc to_be_bytes
decode_loc-encode_loc loc hp hs = (
  length-encode_loc loc,
  λ i. some (record {
    page_id = from_be_bytes-to_be_bytes 8 loc.page_id hp i;
    slot_id = from_be_bytes-to_be_bytes 2 loc.slot_id hs i;
  }),
)
