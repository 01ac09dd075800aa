-- ===== src/Lsm/Tree/Layers.antt =====
-- The runs on disk as layers of entries, the newest in front.
use mathlib.Core.List.{reverse}
use strata_db.Prelude.{
  ℕ, zero, suc, ◌+◌, ◌≤◌, ◌<◌, ◌≡◌, refl, ap, inl, inr, List, [], ◌∷◌, Option, none, some,
  Option-cases, All, ◌==◌, ==_iff, Bool-cases, ok, arith,
}
use strata_db.Lsm.Key.{KeyValue}
use strata_db.Lsm.Resolve.Newest.{newest}
use strata_db.Lsm.Manifest.{RunDescriptor, runs_in}
use strata_db.Lsm.Table.Bloom.{FastBloom}
use strata_db.Lsm.Table.Read.Covering.{or_else}
use strata_db.Lsm.Table.Holds.{get-Holds}
use strata_db.Lsm.Table.Holds.Written.{OnDisk}
use strata_db.Lsm.Tree.{Tables, with_table, open_id, search_files, search_runs, search_levels}

-- A run of one file, which holds `entries`.
pub record Layer (fb : FastBloom) (tables : Tables) (next : ℕ) (r : RunDescriptor)
    (entries : List KeyValue) : Type 0 where
  pub id : ℕ
  pub files : r.files ≡ id ∷ []
  pub below : id < next
  pub file : List ℕ
  pub there : tables id ≡ some file
  pub disk : OnDisk fb file entries

module _ (fb : FastBloom) (tables : Tables) (next : ℕ) where
  abbrev pub Layers : List RunDescriptor → List (List KeyValue) → Type 0
  Layers [] [] = Unit
  Layers (r ∷ rs) (l ∷ ls) = Layer fb tables next r l × Layers rs ls
  Layers [] (l ∷ ls) = ⊥
  Layers (r ∷ rs) [] = ⊥

-- The first layer that holds the key decides.
abbrev pub newest_in : List ℕ → List (List KeyValue) → Option KeyValue
newest_in k [] = none
newest_in k (l ∷ ls) = or_else (newest k l) (newest_in k ls)

module _ (crc32 : List ℕ → ℕ) (fb : FastBloom) where
  -- A table with a fresh id leaves the layers as they were.
  pub Layers-with_table :
      (tables : Tables) (next next' : ℕ) (file : List ℕ) (rs : List RunDescriptor)
      (ls : List (List KeyValue))
      → next ≤ next'
      → Layers fb tables next rs ls
      → Layers fb (with_table next file tables) next' rs ls
  Layers-with_table tables next next' file [] [] le h = tt
  Layers-with_table tables next next' file [] (l ∷ ls) le h = elim h [ ]
  Layers-with_table tables next next' file (r ∷ rs) [] le h = elim h [ ]
  Layers-with_table tables next next' file (r ∷ rs) (l ∷ ls) le h =
      let layer = h.0 in
      (
        record {
          id = layer.id;
          files = layer.files;
          below = omega (arith, layer.below);
          file = layer.file;
          there = elim (Bool-cases (layer.id == next)) [
            | inl same ↦ absurd (omega (arith, layer.below, (==_iff layer.id next).0 same))
            | inr other ↦ rw other layer.there
          ];
          disk = layer.disk;
        },
        Layers-with_table tables next next' file rs ls le h.1,
      )

  open_id-Layer :
      (tables : Tables) (next : ℕ) (r : RunDescriptor) (l : List KeyValue)
      (layer : Layer fb tables next r l)
      → open_id tables layer.id ≡ ok (layer.file, layer.disk.table)
  unfolding open_id
  open_id-Layer tables next r l layer = rw (layer.there, open_id) (rw layer.disk.opens refl)

  search_files-Layer :
      (tables : Tables) (next : ℕ) (key : List ℕ) (max_seq : ℕ) (r : RunDescriptor)
      (l : List KeyValue)
      → Layer fb tables next r l
      → All (λ kv. kv.key.seq ≤ max_seq) l
      → search_files crc32 fb tables key max_seq r.files ≡ ok (newest key l)
  unfolding search_files open_id
  search_files-Layer tables next key max_seq r l layer old =
      let disk = layer.disk in
      let opened = open_id-Layer tables next r l layer in
      rw layer.files (
        rw opened (
          rw (get-Holds fb layer.file l disk.table key max_seq disk.holds old)
            (elim (Option-cases (newest key l)) [
              | inl nothing ↦ rw nothing refl
              | inr (kv, e) ↦ rw e refl
            ])))

  pub search_runs-Layers :
      (tables : Tables) (next : ℕ) (key : List ℕ) (max_seq : ℕ) (rs : List RunDescriptor)
      (ls : List (List KeyValue))
      → Layers fb tables next rs ls
      → All (All (λ kv. kv.key.seq ≤ max_seq)) ls
      → search_runs crc32 fb tables key max_seq rs ≡ ok (newest_in key ls)
  unfolding search_runs
  search_runs-Layers tables next key max_seq [] [] h old = refl
  search_runs-Layers tables next key max_seq [] (l ∷ ls) h old = elim h [ ]
  search_runs-Layers tables next key max_seq (r ∷ rs) [] h old = elim h [ ]
  search_runs-Layers tables next key max_seq (r ∷ rs) (l ∷ ls) h old =
      let ih = search_runs-Layers tables next key max_seq rs ls h.1 old.1 in
      rw (search_files-Layer tables next key max_seq r l h.0 old.0)
        (elim (Option-cases (newest key l)) [
          | inl nothing ↦ rw nothing ih
          | inr (kv, e) ↦ rw e refl
        ])

  runs_in-zero : (rs : List RunDescriptor) → All (λ r. r.level ≡ 0) rs → runs_in 0 rs ≡ rs
  unfolding runs_in
  runs_in-zero [] h = refl
  runs_in-zero (r ∷ rs) h = rw ((==_iff r.level 0).1 h.0) (ap (◌∷◌ r) (runs_in-zero rs h.1))

  runs_in-deep :
      (level : ℕ) (rs : List RunDescriptor)
      → 1 ≤ level
      → All (λ r. r.level ≡ 0) rs
      → runs_in level rs ≡ []
  unfolding runs_in
  runs_in-deep level [] deep h = refl
  runs_in-deep level (r ∷ rs) deep h = elim (Bool-cases (r.level == level)) [
    | inl same ↦ absurd (omega (arith, h.0, (==_iff r.level level).0 same))
    | inr other ↦ rw other (runs_in-deep level rs deep h.1)
  ]

  search_levels-deep :
      (count level : ℕ) (tables : Tables) (key : List ℕ) (max_seq : ℕ) (rs : List RunDescriptor)
      → 1 ≤ level
      → All (λ r. r.level ≡ 0) rs
      → search_levels crc32 fb count level tables key max_seq rs ≡ ok none
  unfolding search_levels search_runs
  search_levels-deep zero level tables key max_seq rs deep h = refl
  search_levels-deep (suc count) level tables key max_seq rs deep h =
      rw (runs_in-deep level rs deep h)
        (search_levels-deep count (level + 1) tables key max_seq rs (omega arith) h)

  -- Over runs that all stand at level 0, the levels are searched as one stack of layers.
  pub search_levels-Layers :
      (count : ℕ) (tables : Tables) (next : ℕ) (key : List ℕ) (max_seq : ℕ)
      (rs : List RunDescriptor) (ls : List (List KeyValue))
      → 1 ≤ count
      → All (λ r. r.level ≡ 0) rs
      → Layers fb tables next (reverse rs) ls
      → All (All (λ kv. kv.key.seq ≤ max_seq)) ls
      → search_levels crc32 fb count 0 tables key max_seq rs ≡ ok (newest_in key ls)
  unfolding search_levels
  search_levels-Layers zero tables next key max_seq rs ls one flat h old =
      absurd (omega (arith, one))
  search_levels-Layers (suc count) tables next key max_seq rs ls one flat h old =
      rw (ap reverse (runs_in-zero rs flat)) (
        rw (search_runs-Layers tables next key max_seq (reverse rs) ls h old)
          (elim (Option-cases (newest_in key ls)) [
            | inl nothing ↦
                rw nothing (search_levels-deep count 1 tables key max_seq rs (omega arith) flat)
            | inr (kv, e) ↦ rw e refl
          ]))
