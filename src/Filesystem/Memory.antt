-- ===== src/Filesystem/Memory.antt =====
-- crates/filesystem/src/memory.rs: a budget that threads share. `usize` has 64 bits, and `in_use` wraps
-- as an atomic does; the sum in the test of `allocate` wraps as in a release build. A slab is its bytes,
-- and the handles of one pool share its state. A panic (`none`) leaves the reservation behind.
pub mod Budget
mod Examples
use strata_db.Prelude.{
  ℕ, zero, suc, ◌+◌, ◌-◌, ◌^◌, ◌%◌, List, [], ◌∷◌, Bool, true, false, not, ◌&&◌, length, ltb, ◌==◌,
  Option, none, some, Result, ok, err,
}

pub record MemoryPool : Type 0 where
  pub cap : ℕ
  pub in_use : ℕ

pub record OutOfMemory : Type 0 where
  pub requested : ℕ
  pub was_in_use : ℕ
  pub limit : ℕ

-- `MemoryPool::new`
abbrev pub new_pool : ℕ → MemoryPool
new_pool cap = record { cap = cap; in_use = 0 }

-- `fetch_add` and `fetch_sub` on `in_use`
abbrev pub fetch_add : ℕ → MemoryPool → MemoryPool
fetch_add size p = record { cap = p.cap; in_use = (p.in_use + size) % 2 ^ 64 }

abbrev pub fetch_sub : ℕ → MemoryPool → MemoryPool
fetch_sub size p = record { cap = p.cap; in_use = (p.in_use + 2 ^ 64 - size) % 2 ^ 64 }

-- The test of `allocate` on what `fetch_add` returned.
abbrev pub exceeds : ℕ → ℕ → ℕ → Bool
exceeds cap prev size = not (cap == 0) && ltb cap ((prev + size) % 2 ^ 64)

-- Whether `vec!` panics: no object is larger than `isize::MAX` bytes.
abbrev pub too_large : ℕ → Bool
too_large size = ltb (2 ^ 63 - 1) size

abbrev pub zeroed : ℕ → List ℕ
zeroed zero = []
zeroed (suc size) = 0 ∷ zeroed size

-- `MemoryPool::allocate` without another thread in between
unfoldable pub allocate : ℕ → MemoryPool → Option (Result OutOfMemory (List ℕ)) × MemoryPool
allocate size p =
    let reserved = fetch_add size p in
    elim (exceeds p.cap p.in_use size) [
      | true ↦ (
        some (err (record { requested = size; was_in_use = p.in_use; limit = p.cap })),
        fetch_sub size reserved,
      )
      | false ↦ elim (too_large size) [
        | true ↦ (none, reserved)
        | false ↦ (some (ok (zeroed size)), reserved)
      ]
    ]

-- `Drop for Slab`
unfoldable pub drop_slab : List ℕ → MemoryPool → MemoryPool
drop_slab bytes p = fetch_sub (length bytes) p
