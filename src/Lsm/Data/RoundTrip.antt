-- ===== src/Lsm/Data/RoundTrip.antt =====
-- Entries and blocks are read back as they were written.
use strata_db.Prelude.{
  ℕ, zero, suc, ◌+◌, ◌%◌, ◌^◌, ◌≤◌, ◌<◌, ◌≡◌, refl, ap, ◌∙◌, ◌⊎◌, inl, inr, List, [], ◌∷◌, ◌++◌,
  Option, none, some, length, length-append, All, Result, ok, err, arith,
}
use strata_db.Prelude.Reads.{
  Reads, Reads-bind, Reads-map, Reads-pure, Consumes, Consumes-bind, Consumes-pure,
}
use strata_db.Filesystem.Codec.{
  DecodeError, unexpected_eof, be_u8, be_u64, put_bytes, get_bytes, get_u8, get_u64,
}
use strata_db.Filesystem.Codec.RoundTrip.{
  length-to_be_bytes, get_u8-Reads, get_u64-Reads, get_bytes-put_bytes, get_bytes-Consumes,
  read_be-Consumes,
}
use strata_db.Lsm.Key.{OpType, put, delete, KeyValue}
use strata_db.Lsm.Data.{
  op_byte, op_of_byte, encode_kv, decode_kv, entry_size, encode_block, push, decode_block_loop,
  decode_block,
}

-- The lengths fit their `u32` prefixes, and the sequence number is a `u64`.
pub record FitsEntry (kv : KeyValue) : Type 0 where
  pub key_len : length kv.key.user_key < 2 ^ 32
  pub seq : kv.key.seq < 2 ^ 64
  pub value_len : length kv.value < 2 ^ 32

op_byte-lt : (op : OpType) → op_byte op < 256
unfolding op_byte
op_byte-lt put = omega arith
op_byte-lt delete = omega arith

op_of_byte-Reads : (op : OpType) → Reads (op_of_byte (op_byte op)) [] op
unfolding op_byte op_of_byte
op_of_byte-Reads put = Reads-pure put
op_of_byte-Reads delete = Reads-pure delete

-- An entry is read back from its encoding, whatever bytes follow it.
pub decode_kv-encode_kv : (kv : KeyValue) → FitsEntry kv → Reads decode_kv (encode_kv kv) kv
unfolding decode_kv encode_kv
decode_kv-encode_kv kv fits =
    Reads-bind get_bytes _ (get_bytes-put_bytes kv.key.user_key fits.key_len) (
      Reads-bind get_u64 _ (get_u64-Reads kv.key.seq fits.seq) (
        Reads-bind get_u8 _ (get_u8-Reads (op_byte kv.key.op) (op_byte-lt kv.key.op)) (
          Reads-bind (op_of_byte (op_byte kv.key.op)) _ {xs = []} (op_of_byte-Reads kv.key.op)
            (Reads-map get_bytes _ (get_bytes-put_bytes kv.value fits.value_len)))))

length-put_bytes : (value : List ℕ) → length (put_bytes value) ≡ 4 + length value
unfolding put_bytes
length-put_bytes value =
    rw length-append (omega (arith, length-to_be_bytes 4 (length value % 2 ^ 32)))

-- An entry takes as many bytes as `entry_size` says.
pub length-encode_kv : (kv : KeyValue) → length (encode_kv kv) ≡ entry_size kv
unfolding encode_kv entry_size
length-encode_kv kv = omega (
  arith,
  length-append (put_bytes kv.key.user_key)
      (be_u64 kv.key.seq ++ (be_u8 (op_byte kv.key.op) ++ put_bytes kv.value)),
  length-append (be_u64 kv.key.seq) (be_u8 (op_byte kv.key.op) ++ put_bytes kv.value),
  length-put_bytes kv.key.user_key,
  length-put_bytes kv.value,
  length-to_be_bytes 8 kv.key.seq,
)

op_of_byte-Consumes : (b : ℕ) → Consumes 0 (op_of_byte b)
unfolding op_of_byte
op_of_byte-Consumes b = record { at = λ w op rest h. ground arith }

decode_kv-Consumes : Consumes 17 decode_kv
unfolding decode_kv
decode_kv-Consumes = Consumes-bind get_bytes _ 4 13 get_bytes-Consumes (λ user_key.
    Consumes-bind get_u64 _ 8 5 (read_be-Consumes unexpected_eof 8) (λ seq.
      Consumes-bind get_u8 _ 1 4 (read_be-Consumes unexpected_eof 1) (λ b.
        Consumes-bind (op_of_byte b) _ 0 4 (op_of_byte-Consumes b)
          (λ op. Consumes-bind get_bytes _ 4 0 get_bytes-Consumes (λ value. Consumes-pure _)))))

Result-cases : {E A : Type 0} (r : Result E A) → ((a : A) × (r ≡ ok a)) ⊎ ((e : E) × (r ≡ err e))
Result-cases (ok a) = inl (a, refl)
Result-cases (err e) = inr (e, refl)

push-some :
    (kv : KeyValue) (o : Option (Result DecodeError (List KeyValue)))
    → (r : Result DecodeError (List KeyValue)) × (o ≡ some r)
    → (r : Result DecodeError (List KeyValue)) × (push kv o ≡ some r)
push-some kv none (r, e) = absurd (cc)
push-some kv (some (err x)) h = (err x, refl)
push-some kv (some (ok kvs)) h = (ok (kv ∷ kvs), refl)

decode_block_loop_total :
    (fuel : ℕ) (bytes : List ℕ)
    → length bytes ≤ fuel
    → (r : Result DecodeError (List KeyValue)) × (decode_block_loop fuel bytes ≡ some r)
unfolding decode_block_loop
decode_block_loop_total fuel [] enough = (ok [], refl)
decode_block_loop_total zero (b ∷ bytes) enough = absurd (omega arith)
decode_block_loop_total (suc fuel) (b ∷ bytes) enough =
    elim (Result-cases (decode_kv (b ∷ bytes))) [
      | inl ((kv, rest), e) ↦
          rw (e, decode_block_loop)
            (push-some kv (decode_block_loop fuel rest) (
              decode_block_loop_total fuel rest
                (omega (arith, decode_kv-Consumes.at (b ∷ bytes) kv rest e))))
      | inr (x, e) ↦ (err x, rw (e, decode_block_loop))
    ]

-- The loop of the block decoder ends on any bytes, in a block or an error.
pub decode_block_total :
    (bytes : List ℕ) → (r : Result DecodeError (List KeyValue)) × (decode_block bytes ≡ some r)
unfolding decode_block
decode_block_total bytes = decode_block_loop_total (length bytes) bytes (omega arith)

decode_block_loop-step :
    (fuel : ℕ) (bytes : List ℕ) (kv : KeyValue) (rest : List ℕ)
    → decode_kv bytes ≡ ok (kv, rest)
    → decode_block_loop (suc fuel) bytes ≡ push kv (decode_block_loop fuel rest)
unfolding decode_block_loop
decode_block_loop-step fuel [] kv rest e =
    absurd (omega (arith, decode_kv-Consumes.at [] kv rest e))
decode_block_loop-step fuel (b ∷ bytes) kv rest e = rw (e, decode_block_loop)

encode_kv-nonempty : (kv : KeyValue) → 17 ≤ length (encode_kv kv)
encode_kv-nonempty kv = rw (length-encode_kv kv) (unfold entry_size in omega arith)

decode_block_loop-encode :
    (fuel : ℕ) (kvs : List KeyValue)
    → All FitsEntry kvs
    → length (encode_block kvs) ≤ fuel
    → decode_block_loop fuel (encode_block kvs) ≡ some (ok kvs)
unfolding encode_block
decode_block_loop-encode zero [] fits enough = unfold decode_block_loop in refl
decode_block_loop-encode (suc fuel) [] fits enough = unfold decode_block_loop in refl
decode_block_loop-encode zero (kv ∷ kvs) fits enough =
    absurd (omega (arith, encode_kv-nonempty kv, length-append (encode_kv kv) (encode_block kvs)))
decode_block_loop-encode (suc fuel) (kv ∷ kvs) fits enough =
    decode_block_loop-step fuel (encode_kv kv ++ encode_block kvs) kv (encode_block kvs)
      ((decode_kv-encode_kv kv fits.0).at (encode_block kvs))
    ∙ ap (push kv) (
        decode_block_loop-encode fuel kvs fits.1
          (omega (arith, encode_kv-nonempty kv, length-append (encode_kv kv) (encode_block kvs))))

-- A data block whose entries fit their fields decodes to what was encoded.
pub decode_block-encode_block :
    (kvs : List KeyValue) → All FitsEntry kvs → decode_block (encode_block kvs) ≡ some (ok kvs)
unfolding decode_block
decode_block-encode_block kvs fits =
    decode_block_loop-encode (length (encode_block kvs)) kvs fits (omega arith)
