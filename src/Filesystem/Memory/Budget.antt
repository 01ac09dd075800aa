-- ===== src/Filesystem/Memory/Budget.antt =====
-- Threads that share a pool: an `allocate` is a reservation, and later the test and its outcome.
use strata_db.Prelude.{
  ℕ, zero, suc, ◌+◌, ◌^◌, ◌%◌, ◌≤◌, ◌<◌, ◌≡◌, ◌≢◌, All, refl, inl, inr, ◌⊎◌, List, [], ◌∷◌, ◌++◌,
  true, false, if◌then◌else◌, arith,
}
use strata_db.Filesystem.Memory.{MemoryPool, new_pool, fetch_add, fetch_sub, exceeds, too_large}

-- The sizes of the live slabs, and the calls between their `fetch_add` and their test, each with
-- what `fetch_add` returned and its size.
pub record Threads : Type 0 where
  pub pool : MemoryPool
  pub slabs : List ℕ
  pub calls : List (ℕ × ℕ)

pub data Step : Threads → Threads → Type 0 where
  reserve :
      (size cap in_use : ℕ) (slabs : List ℕ) (calls : List (ℕ × ℕ))
      → Step
          (record { pool = record { cap = cap; in_use = in_use }; slabs = slabs; calls = calls })
          (record {
            pool = fetch_add size (record { cap = cap; in_use = in_use });
            slabs = slabs;
            calls = (in_use, size) ∷ calls;
          })
  grant :
      (prev size : ℕ) (pool : MemoryPool) (slabs : List ℕ) (pre post : List (ℕ × ℕ))
      → exceeds pool.cap prev size ≡ false
      → too_large size ≡ false
      → Step
          (record { pool = pool; slabs = slabs; calls = pre ++ ((prev, size) ∷ post) })
          (record { pool = pool; slabs = size ∷ slabs; calls = pre ++ post })
  reject :
      (prev size : ℕ) (pool : MemoryPool) (slabs : List ℕ) (pre post : List (ℕ × ℕ))
      → exceeds pool.cap prev size ≡ true
      → Step
          (record { pool = pool; slabs = slabs; calls = pre ++ ((prev, size) ∷ post) })
          (record { pool = fetch_sub size pool; slabs = slabs; calls = pre ++ post })
  -- `vec!` panics behind the test.
  panic :
      (prev size : ℕ) (pool : MemoryPool) (slabs : List ℕ) (pre post : List (ℕ × ℕ))
      → exceeds pool.cap prev size ≡ false
      → too_large size ≡ true
      → Step
          (record { pool = pool; slabs = slabs; calls = pre ++ ((prev, size) ∷ post) })
          (record { pool = pool; slabs = slabs; calls = pre ++ post })
  release :
      (size : ℕ) (pool : MemoryPool) (pre post : List ℕ) (calls : List (ℕ × ℕ))
      → Step
          (record { pool = pool; slabs = pre ++ (size ∷ post); calls = calls })
          (record { pool = fetch_sub size pool; slabs = pre ++ post; calls = calls })

unfoldable pub total : List ℕ → ℕ
total [] = 0
total (n ∷ l) = n + total l

-- What the calls have reserved.
unfoldable pub reserved : List (ℕ × ℕ) → ℕ
reserved [] = 0
reserved (c ∷ l) = c.1 + reserved l

-- Runs from a fresh pool in which the bytes of the live slabs and of the calls under way come to no
-- more than `isize::MAX` together.
pub data Reach (cap : ℕ) : Threads → Type 0 where
  idle : Reach cap (record { pool = new_pool cap; slabs = []; calls = [] })
  step :
      {s t : Threads}
      → Reach cap s
      → Step s t
      → total t.slabs + reserved t.calls < 2 ^ 63
      → Reach cap t

-- What the calls that will be granted have reserved.
unfoldable pub granted : ℕ → List (ℕ × ℕ) → ℕ
granted cap [] = 0
granted cap (c ∷ l) = (if exceeds cap c.0 c.1 then 0 else c.1) + granted cap l

total-middle : (pre post : List ℕ) (n : ℕ) → total (pre ++ (n ∷ post)) ≡ n + total (pre ++ post)
unfolding total
total-middle [] post n = refl
total-middle (m ∷ pre) post n = omega (arith, total-middle pre post n)

reserved-middle :
    (pre post : List (ℕ × ℕ)) (p n : ℕ)
    → reserved (pre ++ ((p, n) ∷ post)) ≡ n + reserved (pre ++ post)
unfolding reserved
reserved-middle [] post p n = refl
reserved-middle (m ∷ pre) post p n = omega (arith, reserved-middle pre post p n)

granted-middle :
    (cap : ℕ) (pre post : List (ℕ × ℕ)) (p n : ℕ)
    → granted cap (pre ++ ((p, n) ∷ post))
      ≡ (if exceeds cap p n then 0 else n) + granted cap (pre ++ post)
unfolding granted
granted-middle cap [] post p n = refl
granted-middle cap (m ∷ pre) post p n = omega (arith, granted-middle cap pre post p n)

-- What `fetch_add` returned to a call, and its size, leave room in a word.
abbrev NoWrap : List (ℕ × ℕ) → Type 0
NoWrap calls = All (λ c. c.0 + c.1 < 2 ^ 63) calls

NoWrap-middle :
    (pre post : List (ℕ × ℕ)) (p n : ℕ)
    → NoWrap (pre ++ ((p, n) ∷ post))
    → (p + n < 2 ^ 63) × NoWrap (pre ++ post)
NoWrap-middle [] post p n h = h
NoWrap-middle (c ∷ pre) post p n h =
    let rest = NoWrap-middle pre post p n h.1 in (rest.0, (h.0, rest.1))

record Within (cap : ℕ) (s : Threads) : Type 0 where
  same_cap : s.pool.cap ≡ cap
  small : total s.slabs + reserved s.calls < 2 ^ 63
  counted : s.pool.in_use ≡ total s.slabs + reserved s.calls
  fits : NoWrap s.calls
  below : cap ≢ 0 → total s.slabs + granted cap s.calls ≤ cap

granted-reserved : (cap : ℕ) (calls : List (ℕ × ℕ)) → granted cap calls ≤ reserved calls
unfolding granted reserved
granted-reserved cap [] = omega arith
granted-reserved cap (c ∷ l) = ground (arith, granted-reserved cap l)

add_small : (a b : ℕ) → a + b < 2 ^ 63 → (a + b) % 2 ^ 64 ≡ a + b
add_small a b h = omega (arith, h)

Step-Within :
    (cap : ℕ) (s t : Threads)
    → Step s t
    → total t.slabs + reserved t.calls < 2 ^ 63
    → Within cap s
    → Within cap t
unfolding total reserved granted
Step-Within cap _ _ (reserve size c u slabs calls) room w = record {
  same_cap = w.same_cap;
  small = room;
  counted = omega (arith, w.counted, room);
  fits = (omega (arith, w.counted, room), w.fits);
  below = λ n.
      let asked = add_small u size (omega (arith, w.counted, room)) in
      ground (arith, asked, w.below n, w.counted, w.same_cap, granted-reserved cap calls);
}
Step-Within cap _ _ (grant prev size pool slabs pre post fits sized) room w = record {
  same_cap = w.same_cap;
  small = room;
  counted = omega (arith, w.counted, reserved-middle pre post prev size);
  fits = (NoWrap-middle pre post prev size w.fits).1;
  below = λ n. ground (arith, fits, w.below n, w.same_cap, granted-middle cap pre post prev size);
}
Step-Within cap _ _ (reject prev size pool slabs pre post full) room w = record {
  same_cap = w.same_cap;
  small = room;
  counted = omega (arith, w.counted, w.small, room, reserved-middle pre post prev size);
  fits = (NoWrap-middle pre post prev size w.fits).1;
  below = λ n. ground (arith, full, w.below n, w.same_cap, granted-middle cap pre post prev size);
}
Step-Within cap _ _ (panic prev size pool slabs pre post fits large) room w =
    let asked = (NoWrap-middle pre post prev size w.fits).0 in absurd (ground (arith, large, asked))
Step-Within cap _ _ (release size pool pre post calls) room w = record {
  same_cap = w.same_cap;
  small = room;
  counted = omega (arith, w.counted, w.small, room, total-middle pre post size);
  fits = w.fits;
  below = λ n. omega (arith, w.below n, total-middle pre post size);
}

Reach-Within : (cap : ℕ) (s : Threads) → Reach cap s → Within cap s
unfolding total reserved granted
Reach-Within cap _ idle = record {
  same_cap = refl;
  small = omega arith;
  counted = refl;
  fits = tt;
  below = λ n. omega arith;
}
Reach-Within cap t (step {s} r h room) = Step-Within cap s t h room (Reach-Within cap s r)

cap_cases : (cap n : ℕ) → (cap ≢ 0 → n ≤ cap) → (cap ≡ 0) ⊎ (n ≤ cap)
cap_cases zero n h = inl refl
cap_cases (suc cap) n h = inr (h (λ e. absurd (omega arith)))

-- However the reservations, outcomes and drops of any number of threads interleave, as long as the
-- bytes of the live slabs and of the calls under way never come to more than `isize::MAX` together,
-- the live slabs of a pool with a cap do not exceed it, and the bytes in use are those of the live
-- slabs and of the calls under way, so that nothing is left when all are gone.
pub pool_within_cap :
    (cap : ℕ) (s : Threads)
    → Reach cap s
    → (s.pool.in_use ≡ total s.slabs + reserved s.calls) × ((cap ≡ 0) ⊎ (total s.slabs ≤ cap))
pool_within_cap cap s r =
    let w = Reach-Within cap s r in
    (w.counted, cap_cases cap (total s.slabs) (λ n. omega (arith, w.below n)))
