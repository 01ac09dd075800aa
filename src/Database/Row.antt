-- ===== src/Database/Row.antt =====
-- crates/strata-db/src/storage/row.rs: the engine's key of a row. An id is the 16 bytes of its UUID.
use strata_db.Prelude.{
  ℕ, ◌+◌, ◌^◌, ◌<◌, ◌≡◌, sym, ap, ◌∙◌, List, ◌++◌, append_assoc, length, take, drop, take-append,
  drop-append, length-append, ltb, ltb-eq_false, if◌then◌else◌, Result, ok, err, arith,
}
use strata_db.Filesystem.Codec.{be_u64, from_be_bytes}
use strata_db.Filesystem.Codec.RoundTrip.{length-to_be_bytes, from_be_bytes-to_be_bytes}

abbrev pub id_bytes : ℕ
id_bytes = 16

abbrev pub prefix_bytes : ℕ
prefix_bytes = 56

pub record RowKey : Type 0 where
  pub project_id : List ℕ
  pub dataset_id : List ℕ
  pub table_id : List ℕ
  pub truncation_id : ℕ
  pub user_key : List ℕ

pub data EncodingError : Type 0 where
  invalid : ℕ → EncodingError

unfoldable pub table_prefix : List ℕ → List ℕ → List ℕ → ℕ → List ℕ
table_prefix project dataset table truncation = project ++ (dataset ++ (table ++ be_u64 truncation))

unfoldable pub encode_row_key : RowKey → List ℕ
encode_row_key k =
    k.project_id ++ (k.dataset_id ++ (k.table_id ++ (be_u64 k.truncation_id ++ k.user_key)))

unfoldable pub decode_row_key : List ℕ → Result EncodingError RowKey
decode_row_key bytes =
    if ltb (length bytes) prefix_bytes
    then err (invalid (length bytes))
    else ok (record {
      project_id = take id_bytes bytes;
      dataset_id = take id_bytes (drop id_bytes bytes);
      table_id = take id_bytes (drop id_bytes (drop id_bytes bytes));
      truncation_id = from_be_bytes (take 8 (drop id_bytes (drop id_bytes (drop id_bytes bytes))));
      user_key = drop 8 (drop id_bytes (drop id_bytes (drop id_bytes bytes)));
    })

-- A key whose ids have 16 bytes and whose truncation id fits 64 bits is read back, and its bytes
-- start with the prefix of its table's incarnation.
pub decode_row_key-encode_row_key :
    (k : RowKey)
    → length k.project_id ≡ id_bytes
    → length k.dataset_id ≡ id_bytes
    → length k.table_id ≡ id_bytes
    → k.truncation_id < 2 ^ 64
    → (decode_row_key (encode_row_key k) ≡ ok k)
      × (encode_row_key k
          ≡ table_prefix k.project_id k.dataset_id k.table_id k.truncation_id ++ k.user_key)
unfolding decode_row_key encode_row_key table_prefix
decode_row_key-encode_row_key k hp hd ht hn = (
  rw (ltb-eq_false (length (encode_row_key k)) prefix_bytes (omega (arith, len))) (λ i. ok (record {
    project_id = take-append 16 k.project_id (k.dataset_id ++ (k.table_id ++ rest3)) hp i;
    dataset_id = (ap (take 16) d1 ∙ take-append 16 k.dataset_id (k.table_id ++ rest3) hd) i;
    table_id = (ap (take 16) d2 ∙ take-append 16 k.table_id rest3 ht) i;
    truncation_id =
        (ap (λ b. from_be_bytes (take 8 b)) d3
            ∙ ap from_be_bytes (take-append 8 (be_u64 k.truncation_id) k.user_key hl)
            ∙ from_be_bytes-to_be_bytes 8 k.truncation_id hn)
          i;
    user_key = (ap (drop 8) d3 ∙ drop-append 8 (be_u64 k.truncation_id) k.user_key hl) i;
  })),
  regroup,
)
  where
    rest3 : List ℕ
    rest3 = be_u64 k.truncation_id ++ k.user_key

    hl : length (be_u64 k.truncation_id) ≡ 8
    hl = length-to_be_bytes 8 k.truncation_id

    d1 : drop 16 (encode_row_key k) ≡ k.dataset_id ++ (k.table_id ++ rest3)
    d1 = drop-append 16 k.project_id (k.dataset_id ++ (k.table_id ++ rest3)) hp

    d2 : drop 16 (drop 16 (encode_row_key k)) ≡ k.table_id ++ rest3
    d2 = ap (drop 16) d1 ∙ drop-append 16 k.dataset_id (k.table_id ++ rest3) hd

    d3 : drop 16 (drop 16 (drop 16 (encode_row_key k))) ≡ rest3
    d3 = ap (drop 16) d2 ∙ drop-append 16 k.table_id rest3 ht

    len : length (encode_row_key k) ≡ 56 + length k.user_key
    len = omega (
      arith,
      hp,
      hd,
      ht,
      hl,
      length-append k.project_id (k.dataset_id ++ (k.table_id ++ rest3)),
      length-append k.dataset_id (k.table_id ++ rest3),
      length-append k.table_id rest3,
      length-append (be_u64 k.truncation_id) k.user_key,
    )

    regroup :
        encode_row_key k
        ≡ table_prefix k.project_id k.dataset_id k.table_id k.truncation_id ++ k.user_key
    regroup =
        ap (λ b. k.project_id ++ b)
          (ap (λ b. k.dataset_id ++ b)
              (sym (append_assoc k.table_id (be_u64 k.truncation_id) k.user_key))
            ∙ sym (append_assoc k.dataset_id (k.table_id ++ be_u64 k.truncation_id) k.user_key))
        ∙ sym (
            append_assoc k.project_id (k.dataset_id ++ (k.table_id ++ be_u64 k.truncation_id))
              k.user_key)
