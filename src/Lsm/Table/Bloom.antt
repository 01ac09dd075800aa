-- ===== src/Lsm/Table/Bloom.antt =====
-- crates/lsm/src/storage/bloom.rs: a thin wrapper. The filter of the `fastbloom` crate is a parameter
-- over the state that is written to disk.
use Prim.Native.Nat.{min, max}
use strata_db.Prelude.{ℕ, ◌*◌, ◌-◌, ◌^◌, ◌≡◌, List, [], ◌∷◌, Bool, true, All}
use strata_db.Lsm.Table.Header.{BloomFilter}

pub record FastBloom : Type 0 where
  -- A filter of so many bits for so many items, with the fixed seed.
  pub with_num_bits : ℕ → ℕ → BloomFilter
  pub insert : List ℕ → BloomFilter → BloomFilter
  pub contains : BloomFilter → List ℕ → Bool

-- What the crate documents: an inserted key is found from then on.
pub record FindsInserted (fb : FastBloom) : Type 0 where
  pub inserted : (f : BloomFilter) (k : List ℕ) → fb.contains (fb.insert k f) k ≡ true
  pub kept :
      (f : BloomFilter) (j k : List ℕ)
      → fb.contains f j ≡ true
      → fb.contains (fb.insert k f) j ≡ true

unfoldable pub insert_all : FastBloom → List (List ℕ) → BloomFilter → BloomFilter
insert_all fb [] f = f
insert_all fb (k ∷ keys) f = insert_all fb keys (fb.insert k f)

-- `BloomFilter::build`; the product saturates at `usize::MAX`.
unfoldable pub build_bloom : FastBloom → ℕ → ℕ → List (List ℕ) → BloomFilter
unfolding insert_all
build_bloom fb bits_per_key n_keys keys =
    let bits = max (min (bits_per_key * n_keys) (2 ^ 64 - 1)) 1 in
    insert_all fb keys (fb.with_num_bits bits (max n_keys 1))

module _ (fb : FastBloom) (finds : FindsInserted fb) where
  insert_all-kept :
      (keys : List (List ℕ)) (f : BloomFilter) (k : List ℕ)
      → fb.contains f k ≡ true
      → fb.contains (insert_all fb keys f) k ≡ true
  unfolding insert_all
  insert_all-kept [] f k h = h
  insert_all-kept (j ∷ keys) f k h = insert_all-kept keys (fb.insert j f) k (finds.kept f k j h)

  insert_all-All :
      (keys : List (List ℕ)) (f : BloomFilter)
      → All (λ k. fb.contains (insert_all fb keys f) k ≡ true) keys
  unfolding insert_all
  insert_all-All [] f = tt
  insert_all-All (k ∷ keys) f = (
    insert_all-kept keys (fb.insert k f) k (finds.inserted f k),
    insert_all-All keys (fb.insert k f),
  )

  -- Every key that a filter was built from is found.
  pub build_bloom-All :
      (bits_per_key n_keys : ℕ) (keys : List (List ℕ))
      → All (λ k. fb.contains (build_bloom fb bits_per_key n_keys keys) k ≡ true) keys
  unfolding build_bloom
  build_bloom-All bits_per_key n_keys keys = insert_all-All keys _
