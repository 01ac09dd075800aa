-- ===== src/Lsm/Data.antt =====
-- crates/lsm/src/storage/data.rs: the entry codec that data blocks and the memtable's journal share.
pub mod RoundTrip
use strata_db.Prelude.{
  ℕ, zero, suc, ◌+◌, List, [], ◌∷◌, ◌++◌, Option, none, some, length, ◌==◌, if◌then◌else◌, Result,
  ok, err, Decoder, ◌>>=◌, pure, fail,
}
use strata_db.Prelude.Reads.{concat_map}
use strata_db.Filesystem.Codec.{
  DecodeError, unknown_op_type, be_u8, be_u64, get_u8, get_u64, put_bytes, get_bytes,
}
use strata_db.Lsm.Key.{OpType, put, delete, KeyValue}

abbrev pub op_put : ℕ
op_put = 1

abbrev pub op_delete : ℕ
op_delete = 2

unfoldable pub op_byte : OpType → ℕ
op_byte put = op_put
op_byte delete = op_delete

unfoldable pub op_of_byte : ℕ → Decoder DecodeError (List ℕ) OpType
op_of_byte b =
    if b == op_put
    then pure put
    else if b == op_delete
    then pure delete
    else fail (unknown_op_type b)

-- `Encode for KeyValue`
unfoldable pub encode_kv : KeyValue → List ℕ
unfolding op_byte
encode_kv kv =
    put_bytes kv.key.user_key
    ++ (be_u64 kv.key.seq ++ (be_u8 (op_byte kv.key.op) ++ put_bytes kv.value))

-- `Decode for KeyValue`
unfoldable pub decode_kv : Decoder DecodeError (List ℕ) KeyValue
unfolding op_of_byte
decode_kv = do
  user_key ← get_bytes
  seq ← get_u64
  b ← get_u8
  op ← op_of_byte b
  value ← get_bytes
  pure (record { key = record { user_key = user_key; seq = seq; op = op }; value = value })

unfoldable pub entry_size : KeyValue → ℕ
entry_size kv = 4 + length kv.key.user_key + 8 + 1 + 4 + length kv.value

-- `Encode for DataBlock`
unfoldable pub encode_block : List KeyValue → List ℕ
encode_block = concat_map encode_kv

-- `entries.push(kv)` in front of what the rest of the loop pushes.
abbrev pub push :
    KeyValue
    → Option (Result DecodeError (List KeyValue))
    → Option (Result DecodeError (List KeyValue))
push kv none = none
push kv (some (err e)) = some (err e)
push kv (some (ok kvs)) = some (ok (kv ∷ kvs))

-- `Decode for DataBlock`: entries until the bytes are used up. `none` means that the fuel ran out.
unfoldable pub decode_block_loop : ℕ → List ℕ → Option (Result DecodeError (List KeyValue))
decode_block_loop fuel [] = some (ok [])
decode_block_loop zero (b ∷ bytes) = none
decode_block_loop (suc fuel) (b ∷ bytes) = elim (decode_kv (b ∷ bytes)) [
  | err e ↦ some (err e)
  | ok (kv, rest) ↦ push kv (decode_block_loop fuel rest)
]

-- An entry takes 17 bytes at least, so the length of the block is fuel enough.
unfoldable pub decode_block : List ℕ → Option (Result DecodeError (List KeyValue))
unfolding decode_block_loop
decode_block bytes = decode_block_loop (length bytes) bytes
