-- ===== src/Lsm/Table/Holds.antt =====
-- What it means that a table on disk holds a list of entries.
pub mod Placed
pub mod Written
pub mod Scanned
pub mod Lookup
use mathlib.Core.Path.{subst}
use strata_db.Prelude.{
  ℕ, ◌^◌, ◌≤◌, ◌<◌, ◌≡◌, refl, sym, ap, ◌∙◌, inl, inr, List, [], ◌∷◌, ◌++◌, Option, none, some,
  Bool, true, false, not, ◌||◌, All, All-map, Bool-cases, if◌then◌else◌, Result, ok, and_then,
  length,
}
use strata_db.Lsm.Error.{LsmError}
use strata_db.Lsm.Key.{KeyRange, contains, KeyValue, cmp_kv}
use strata_db.Lsm.Data.RoundTrip.{FitsEntry}
use strata_db.Lsm.Merge.Sorted.{Sorted, concat}
use strata_db.Lsm.Resolve.Newest.{newest}
use strata_db.Lsm.Table.Header.{BlockMeta, Index, inline, sharded}
use strata_db.Lsm.Table.Bloom.{FastBloom}
use strata_db.Lsm.Table.Build.Packed.{Packed}
use strata_db.Lsm.Table.Read.{
  SsTable, covering, locate_block, load_block, first_version, search_block, get,
}
use strata_db.Lsm.Table.Read.Opened.{load_block-Stored}
use strata_db.Lsm.Table.Read.Covering.{first_version-newest}
use strata_db.Lsm.Table.Read.Located.{Located, Covered, covering-Covered}
use strata_db.Lsm.Table.Read.Shards.{Directory, Settled, shards-Settled}

-- The blocks of an index, through its shards if it has any.
abbrev pub HoldsIndex : List ℕ → ℕ → Index → List (List KeyValue) → Type 0
HoldsIndex file sst_id (inline blocks) gs = Packed file blocks gs
HoldsIndex file sst_id (sharded cs) gs =
    (slices : List (List BlockMeta)) × Directory file sst_id cs slices
    × Packed file (concat slices) gs

pub record Holds (fb : FastBloom) (file : List ℕ) (entries : List KeyValue) (table : SsTable)
    : Type 0 where
  pub groups : List (List KeyValue)
  pub all : concat groups ≡ entries
  pub index : HoldsIndex file table.sst_id table.index groups
  pub in_range : (k : List ℕ) → contains table.range k ≡ false → newest k entries ≡ none
  pub in_bloom : (k : List ℕ) → fb.contains table.bloom k ≡ false → newest k entries ≡ none
  pub sorted : Sorted cmp_kv entries
  pub fits : All FitsEntry entries

All-both :
    (P Q : KeyValue → Type 0) (l : List KeyValue) → All P l → All Q l → All (λ kv. P kv × Q kv) l
All-both P Q [] p q = tt
All-both P Q (kv ∷ l) p q = ((p.0, q.0), All-both P Q l p.1 q.1)

locate-Settled :
    (P : KeyValue → Type 0) (file k : List ℕ) (sst_id : ℕ) (index : Index)
    (gs : List (List KeyValue))
    → HoldsIndex file sst_id index gs
    → Sorted cmp_kv (concat gs)
    → All P (concat gs)
    → Settled P file k (concat gs) (locate_block file index k)
locate-Settled P file k sst_id (inline blocks) gs h sorted each = record {
  answer = covering blocks k;
  result = unfold locate_block in refl;
  covered = covering-Covered P file k blocks gs h sorted each;
}
locate-Settled P file k sst_id (sharded cs) gs h sorted each =
    shards-Settled P file k sst_id cs h.0 gs h.1 h.2 sorted each

search_block-Covered :
    (file k : List ℕ) (max_seq : ℕ) (all : List KeyValue) (o : Option BlockMeta)
    → Covered (λ kv. FitsEntry kv × (kv.key.seq ≤ max_seq)) file k all o
    → search_block file k max_seq o ≡ ok (newest k all)
unfolding search_block
search_block-Covered file k max_seq all none h = ap ok (sym h)
search_block-Covered file k max_seq all (some m) h =
    let Both : KeyValue → Type 0 = λ kv. FitsEntry kv × (kv.key.seq ≤ max_seq) in
    let block = h.first ∷ h.others in
    rw
      (load_block-Stored file m h.first h.others h.stored
        (All-map Both FitsEntry (λ kv p. p.0) block h.each))
      (ap ok (
        first_version-newest k max_seq block h.sorted
          (All-map Both (λ kv. kv.key.seq ≤ max_seq) (λ kv p. p.1) block h.each)
        ∙ h.decides))

-- A lookup that sees every version in the table finds the newest one, whatever its key.
pub get-Holds :
    (fb : FastBloom) (file : List ℕ) (entries : List KeyValue) (table : SsTable) (key : List ℕ)
    (max_seq : ℕ)
    → Holds fb file entries table
    → All (λ kv. kv.key.seq ≤ max_seq) entries
    → get fb file table key max_seq ≡ ok (newest key entries)
unfolding get
get-Holds fb file entries table key max_seq h old =
    let Both : KeyValue → Type 0 = λ kv. FitsEntry kv × (kv.key.seq ≤ max_seq) in
    let settled =
      locate-Settled Both file key table.sst_id table.index h.groups h.index
        (subst (Sorted cmp_kv) (sym h.all) h.sorted)
        (subst (All Both) (sym h.all)
          (All-both FitsEntry (λ kv. kv.key.seq ≤ max_seq) entries h.fits old)) in
    let found : and_then (locate_block file table.index key) (search_block file key max_seq)
        ≡ ok (newest key entries) =
      ap (λ r. and_then r (search_block file key max_seq)) settled.result
      ∙ search_block-Covered file key max_seq (concat h.groups) settled.answer settled.covered
      ∙ ap (λ l. ok (newest key l)) h.all in
    elim (Bool-cases (contains table.range key)) [
      | inl inside ↦ elim (Bool-cases (fb.contains table.bloom key)) [
        | inl maybe ↦ rw inside (rw maybe found)
        | inr surely ↦ rw inside (rw surely (ap ok (sym (h.in_bloom key surely))))
      ]
      | inr outside ↦ rw outside (ap ok (sym (h.in_range key outside)))
    ]
