-- ===== src/Lsm/Journaled.antt =====
-- crates/lsm/src/store.rs and memstore/journal.rs: a memtable whose writes are logged before they
-- are applied. A failing call gives its error and the state it leaves behind.
pub mod Store
pub mod Recovery
use strata_db.Prelude.{ℕ, List, [], ◌∷◌, Result, ok, err, and_then}
use strata_db.Filesystem.Codec.{DecodeError}
use strata_db.Journal.Log.{
  JournalError, decode_failed, Codec, Journal, open_journal, append, replay, truncate,
}
use strata_db.Lsm.Error.{WriteError, into_write}
use strata_db.Lsm.Key.{KeyValue}
use strata_db.Lsm.Data.{encode_kv, decode_kv}

-- `MemStore`: a put that fails leaves the store as it was.
pub record MemStore (M : Type 0) : Type 0 where
  pub put : KeyValue → M → Result WriteError M
  pub clear : M → M

-- `KeyValueCodec`
unfoldable pub decode_record : List ℕ → Result JournalError KeyValue
decode_record bytes = elim (decode_kv bytes) [ err e ↦ err decode_failed | ok (kv, rest) ↦ ok kv ]

abbrev pub kv_codec : Codec KeyValue
kv_codec = record { encode = encode_kv; decode = decode_record }

pub record Journaled (M : Type 0) : Type 0 where
  pub inner : M
  pub journal : Journal

module _ (crc32 : List ℕ → ℕ) {M : Type 0} (store : MemStore M) where
  -- The loop of `Journaled::open`.
  unfoldable pub replay_into : List (Result JournalError KeyValue) → M → Result WriteError M
  replay_into [] inner = ok inner
  replay_into (err e ∷ records) inner = err (into_write e)
  replay_into (ok kv ∷ records) inner = and_then (store.put kv inner) (λ m. replay_into records m)

  -- `Journaled::open` on what is on disk.
  unfoldable pub open_journaled : List ℕ → M → Result WriteError (Journaled M)
  open_journaled disk inner = elim (open_journal disk) [
    | err e ↦ err (into_write e)
    | ok journal ↦
        and_then (replay_into (replay crc32 kv_codec journal) inner)
          (λ m. ok (record { inner = m; journal = journal }))
  ]

  -- `Journaled::put`
  unfoldable pub put_logged : KeyValue → Journaled M → Result WriteError Unit × Journaled M
  put_logged kv s =
      let logged = append crc32 kv_codec kv s.journal in
      elim (store.put kv s.inner) [
        | err e ↦ (err e, record { inner = s.inner; journal = logged })
        | ok m ↦ (ok tt, record { inner = m; journal = logged })
      ]

  -- `Journaled::clear`
  unfoldable pub clear_logged : Journaled M → Journaled M
  clear_logged s = record { inner = store.clear s.inner; journal = truncate s.journal }
