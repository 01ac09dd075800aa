-- ===== src/Filesystem/Memory/Examples.antt =====
-- Tests of the memory pool, after the tests in crates/filesystem/src/memory.rs.
use strata_db.Prelude.{◌-◌, ◌^◌, none, some, arith, ◌+◌, ◌≤◌, ◌≡◌, refl, ◌⊎◌, [], ◌∷◌, err}
use strata_db.Filesystem.Memory.{allocate}
use strata_db.Filesystem.Memory.Budget.{
  Threads, reserve, grant, reject, Reach, idle, step, total, reserved, pool_within_cap,
}

-- Two threads ask for 100 and 50 of 128 bytes at once.
abbrev after_both : Threads
after_both = record { pool = record { cap = 128; in_use = 100 }; slabs = 100 ∷ []; calls = [] }

asked_both-Reach : Reach 128 (record {
  pool = record { cap = 128; in_use = 150 };
  slabs = [];
  calls = (100, 50) ∷ (0, 100) ∷ [];
})
unfolding total reserved
asked_both-Reach =
    step (step idle (reserve 100 128 0 [] []) (omega arith)) (reserve 50 128 100 [] ((0, 100) ∷ []))
      (omega arith)

after_both-Reach : Reach 128 after_both
unfolding total reserved
after_both-Reach =
    step
      (step asked_both-Reach
        (reject 100 50 (record { cap = 128; in_use = 150 }) [] [] ((0, 100) ∷ []) refl)
        (omega arith))
      (grant 0 100 (record { cap = 128; in_use = 100 }) [] [] [] refl refl) (omega arith)

pool_within_cap_example :
    (after_both.pool.in_use ≡ total (100 ∷ []) + reserved [])
    × ((after_both.pool.cap ≡ 0) ⊎ (total (100 ∷ []) ≤ 128))
pool_within_cap_example = pool_within_cap 128 after_both after_both-Reach

rejected_rolls_back : allocate 50 (record { cap = 128; in_use = 100 }) ≡ (
  some (err (record { requested = 50; was_in_use = 100; limit = 128 })),
  record { cap = 128; in_use = 100 },
)
unfolding allocate
rejected_rolls_back = refl

-- A request close to `usize::MAX` passes the test, panics, and leaves fewer bytes counted than live.
wrapped_passes :
    allocate (2 ^ 64 - 11) (record { cap = 128; in_use = 100 })
    ≡ (none, record { cap = 128; in_use = 89 })
unfolding allocate
wrapped_passes = refl
