-- ===== src/Lsm/Tree/Reach/Write.antt =====
-- A write that the memtable accepts keeps the invariant of the tree.
use mathlib.Core.Path.{subst}
use native.Mathlib.Nat.{mod-eq_of_lt}
use Prim.Native.Nat.{max}
use strata_db.Prelude.Order.{Ordering-cases}
use strata_db.Prelude.{
  ℕ, ◌+◌, ◌^◌, ◌≤◌, ◌<◌, ◌≡◌, refl, sym, ap, ◌∙◌, inl, inr, List, [], ◌∷◌, ◌++◌, length, Option,
  All, All-map, Bool-cases, Result, ok, err, Result-cases, if◌then◌else◌, ◌&&◌, not, ltb, Ordering,
  arith,
}
use strata_db.Journal.Log.{append}
use strata_db.Lsm.Error.{WriteError, LsmError, from_write_error}
use strata_db.Lsm.Key.{OpType, KeyValue, bytes_eq, cmp_key}
use strata_db.Lsm.Data.RoundTrip.{FitsEntry}
use strata_db.Lsm.Resolve.{resolve}
use strata_db.Lsm.Resolve.Newest.{newest, visible}
use strata_db.Lsm.Memtable.{BTreeMemtable, is_empty, put_entry, insert_entry, with_capacity}
use strata_db.Lsm.Memtable.Insert.{Ordered, insert-Ordered}
use strata_db.Lsm.Journaled.{Journaled, kv_codec, put_logged}
use strata_db.Lsm.Journaled.Store.{btree, btree-Clears}
use strata_db.Lsm.Journaled.Recovery.{FitsRecord, put_logged-ok, put_logged-err}
use strata_db.Lsm.Journaled.Recovery
use strata_db.Lsm.Table.Bloom.{FastBloom}
use strata_db.Lsm.Table.Read.Covering.{or_else}
use strata_db.Lsm.Tree.{Lsm, write, max_of}
use strata_db.Lsm.Tree.Layers.{newest_in}
use strata_db.Lsm.Tree.Memory.{newest-insert, insert-All}
use strata_db.Lsm.Tree.Reach.{Contents, updated, record_of, Inv}

put_entry-store :
    (kv : KeyValue) (m m' : BTreeMemtable)
    → put_entry kv m ≡ ok m'
    → m'.store ≡ insert_entry kv m.store
unfolding put_entry
put_entry-store kv m m' e =
    elim (Bool-cases (
      not (is_empty m.store)
      && ltb m.capacity (m.size + (length kv.key.user_key + length kv.value)))) [
        | inl full ↦ let refused = (rw (full, put_entry) at e) in cc
        | inr fits ↦
            let taken = (rw (fits, put_entry) at e) in
            let grown : BTreeMemtable = record {
              store = insert_entry kv m.store;
              capacity = m.capacity;
              size = m.size + (length kv.key.user_key + length kv.value);
            } in
            let same : grown ≡ m' = cc in ap (λ n. n.store) (sym same)
      ]

max_of-All : (n : ℕ) (l : List KeyValue) → max_of l < n → All (λ kv. kv.key.seq < n) l
unfolding max_of
max_of-All n [] h = tt
max_of-All n (kv ∷ l) h = (omega arith, max_of-All n l (omega arith))

pub max_of-le : (n : ℕ) (l : List KeyValue) → All (λ kv. kv.key.seq ≤ n) l → max_of l ≤ n
unfolding max_of
max_of-le n [] h = omega arith
max_of-le n (kv ∷ l) h = omega (arith, h.0, max_of-le n l h.1)

cmp_key-seq : (a b : KeyValue) → cmp_key a.key b.key ≡ Ordering.eq → a.key.seq ≡ b.key.seq
unfolding cmp_key
cmp_key-seq a b h = ground arith

max_of-insert :
    (kv : KeyValue) (l : List KeyValue)
    → All (λ e. e.key.seq < kv.key.seq) l
    → max_of (insert_entry kv l) ≡ kv.key.seq
unfolding max_of insert_entry
max_of-insert kv [] h = omega arith
max_of-insert kv (e ∷ l) h =
    Ordering-cases (cmp_key kv.key e.key)
      (λ c. rw (c, insert_entry) (omega (arith, max_of-le kv.key.seq (e ∷ l) (older (e ∷ l) h))))
      (λ c. absurd (omega (arith, cmp_key-seq kv e c, h.0)))
      (λ c. rw (c, insert_entry) (omega (arith, h.0, max_of-insert kv l h.1)))
  where
    older :
        (t : List KeyValue)
        → All (λ e. e.key.seq < kv.key.seq) t
        → All (λ e. e.key.seq ≤ kv.key.seq) t
    older =
        All-map (λ e. e.key.seq < kv.key.seq) (λ e. e.key.seq ≤ kv.key.seq)
          (λ e lt. omega (arith, lt))

-- What an accepted write leaves behind.
pub record Wrote (crc32 : List ℕ → ℕ) (kv : KeyValue) (s s' : Lsm) : Type 0 where
  pub inner : BTreeMemtable
  pub accepted : put_entry kv s.mem.inner ≡ ok inner
  pub result : s' ≡ record s {
    mem = record { inner = inner; journal = append crc32 kv_codec kv s.mem.journal };
    seq = kv.key.seq;
  }

module _ (crc32 : List ℕ → ℕ) (crc_u32 : (p : List ℕ) → crc32 p < 2 ^ 32) (fb : FastBloom)
    (capacity : ℕ) where
  write-eq :
      (op : OpType) (key value : List ℕ) (s : Lsm)
      (r : Result WriteError Unit × Journaled BTreeMemtable)
      → s.seq + 1 < 2 ^ 64
      → put_logged crc32 btree (record_of op key value (s.seq + 1)) s.mem ≡ r
      → write crc32 fb op key value s ≡ (elim r.0 [
        | err e ↦ (err (from_write_error e), record s { mem = r.1 })
        | ok done ↦ (ok tt, record s { mem = r.1; seq = s.seq + 1 })
      ])
  unfolding write record_of
  write-eq op key value s r h e =
      ap (λ n. answer n (put_logged crc32 btree (record_of op key value n) s.mem)) (mod-eq_of_lt h)
      ∙ ap (answer (s.seq + 1)) e
    where
      answer : ℕ → Result WriteError Unit × Journaled BTreeMemtable → Result LsmError Unit × Lsm
      answer n r = elim r.0 [
        | err e ↦ (err (from_write_error e), record s { mem = r.1 })
        | ok done ↦ (ok tt, record s { mem = r.1; seq = n })
      ]

  -- A write that succeeds has put its record into the memtable and its journal.
  pub write-Wrote :
      (op : OpType) (key value : List ℕ) (s s' : Lsm)
      → s.seq + 1 < 2 ^ 64
      → write crc32 fb op key value s ≡ (ok tt, s')
      → Wrote crc32 (record_of op key value (s.seq + 1)) s s'
  unfolding record_of
  write-Wrote op key value s s' h e =
      let kv = record_of op key value (s.seq + 1) in
      elim (Result-cases (put_entry kv s.mem.inner)) [
        | inl (inner, accepted) ↦ record {
          inner = inner;
          accepted = accepted;
          result =
              ap (λ p. p.1)
                (sym e
                  ∙ write-eq op key value s _ h (
                      put_logged-ok crc32 crc_u32 btree (with_capacity capacity)
                        (btree-Clears capacity) s.mem kv inner accepted));
        }
        | inr (w, refused) ↦
            let same =
              sym e
              ∙ write-eq op key value s _ h (
                  put_logged-err crc32 crc_u32 btree (with_capacity capacity)
                    (btree-Clears capacity) s.mem kv w refused) in
            let differ = ap (λ p. p.0) same in cc
      ]

  below :
      (n : ℕ) (l : List KeyValue) → All (λ kv. kv.key.seq ≤ n) l → All (λ kv. kv.key.seq < n + 1) l
  below n = All-map (λ kv. kv.key.seq ≤ n) (λ kv. kv.key.seq < n + 1) (λ kv h. omega (arith, h))

  above :
      (n : ℕ) (l : List KeyValue) → All (λ kv. kv.key.seq ≤ n) l → All (λ kv. kv.key.seq ≤ n + 1) l
  above n = All-map (λ kv. kv.key.seq ≤ n) (λ kv. kv.key.seq ≤ n + 1) (λ kv h. omega (arith, h))

  -- What a reader sees after the write.
  agrees-wrote :
      (op : OpType) (key value : List ℕ) (seq : ℕ) (l : List KeyValue) (deeper : Option KeyValue)
      (k : List ℕ) (seen : Option (List ℕ))
      → All (λ e. e.key.seq < seq) l
      → seen ≡ visible (or_else (newest k l) deeper)
      → (if bytes_eq key k then resolve op value else seen)
        ≡ visible (or_else (newest k (insert_entry (record_of op key value seq) l)) deeper)
  unfolding record_of visible
  agrees-wrote op key value seq l deeper k seen old e =
      rw (newest-insert k (record_of op key value seq) l old)
        (elim (Bool-cases (bytes_eq key k)) [ inl same ↦ rw same refl | inr other ↦ rw other e ])

  pub wrote-Inv :
      (op : OpType) (key value : List ℕ) (s s' : Lsm) (m : Contents)
      → Inv crc32 crc_u32 fb capacity s m
      → s.seq + 1 < 2 ^ 64
      → FitsRecord (record_of op key value (s.seq + 1))
      → write crc32 fb op key value s ≡ (ok tt, s')
      → Inv crc32 crc_u32 fb capacity s' (updated key (resolve op value) m)
  unfolding updated record_of
  wrote-Inv op key value s s' m inv small fits e =
      let kv = record_of op key value (s.seq + 1) in
      let w = write-Wrote op key value s s' small e in
      let store = s.mem.inner.store in
      let grown = put_entry-store kv s.mem.inner w.inner w.accepted in
      let old = below s.seq store inv.seqs in
      let back : (P : List KeyValue → Type 0) → P (insert_entry kv store) → P w.inner.store =
        λ P. subst P (sym grown) in
      subst (λ t. Inv crc32 crc_u32 fb capacity t (updated key (resolve op value) m)) (sym w.result)
        (record {
          log = inv.log ++ (kv ∷ []);
          mem_reach = Recovery.Reach.accepted s.mem _ inv.log kv inv.mem_reach fits (
              put_logged-ok crc32 crc_u32 btree (with_capacity capacity) (btree-Clears capacity)
                s.mem kv w.inner w.accepted);
          edits = inv.edits;
          manifest_reach = inv.manifest_reach;
          levels = inv.levels;
          ordered = back Ordered (insert-Ordered kv store inv.ordered);
          fits = back (All FitsEntry) (insert-All FitsEntry kv store old fits.entry inv.fits);
          seqs = back (All (λ e. e.key.seq ≤ s.seq + 1)) (
              insert-All (λ e. e.key.seq ≤ s.seq + 1) kv store old (omega arith)
                (above s.seq store inv.seqs));
          resumes =
              back (λ l. s.seq + 1 ≡ max s.manifest.version.last_seq (max_of l))
                (omega (arith, max_of-insert kv store old, inv.resumes));
          flat = inv.flat;
          layers = inv.layers;
          stacked = inv.stacked;
          old =
              All-map (All (λ e. e.key.seq ≤ s.seq)) (All (λ e. e.key.seq ≤ s.seq + 1))
                (above s.seq) inv.layers inv.old;
          agrees = λ k.
              back
                (λ l.
                  (if bytes_eq key k then resolve op value else m k)
                  ≡ visible (or_else (newest k l) (newest_in k inv.layers)))
                (agrees-wrote op key value (s.seq + 1) store (newest_in k inv.layers) k (m k) old
                  (inv.agrees k));
        })
