-- ===== src/Filesystem/Policies/Examples.antt =====
-- Tests of the eviction policies, after the tests in crates/filesystem/src/cache/policies.rs.
use strata_db.Prelude.{
  ℕ, ◌<◌, ◌≡◌, refl, List, [], ◌∷◌, none, some, Bool, true, ◌==◌, length, compare, arith,
}
use strata_db.Prelude.Order.{compare-IsOrder}
use strata_db.Prelude.Maps.{lookup, insert, erase}
use strata_db.Filesystem.Policies.{victim, id_of, cmp_pair}
use strata_db.Filesystem.Policies.Victim.{Picks}
use strata_db.Filesystem.Policies.Lru as Lru
use strata_db.Filesystem.Policies.Lru.Recency.{
  Op, accessed, removed, run, last_use, lru_evicts_oldest,
}
use strata_db.Filesystem.Policies.LruK as LruK
use strata_db.Filesystem.Policies.LruK.{kth}
use strata_db.Filesystem.Policies.LruK.Cold.{run_lruk, accesses, lruk_evicts_cold_first}
use strata_db.Filesystem.Policies.Lfu as Lfu
use strata_db.Filesystem.Policies.Lfu.Frequency.{
  cmp_pair-IsOrder, run_lfu, usage, lfu_evicts_rarest,
}
use strata_db.Filesystem.Policies.Clock as Clock
use strata_db.Filesystem.Policies.Clock.Sweep.{clock_finds_victim}

abbrev always : ℕ → Bool
always id = true

abbrev touches : List Op
touches = accessed 0 ∷ accessed 1 ∷ accessed 0 ∷ accessed 2 ∷ removed 2 ∷ []

lru_evicts_least_recently_used : Lru.evict_candidate always (run touches Lru.new) ≡ some 1
unfolding run Lru.evict_candidate Lru.record_access Lru.remove Lru.new id_of victim erase insert
lru_evicts_least_recently_used = refl

lru_evicts_oldest_example :
    Picks compare compare-IsOrder always
      (λ id. last_use id touches 0 none)
      (Lru.evict_candidate always (run touches Lru.new))
lru_evicts_oldest_example = lru_evicts_oldest touches always

lfu_evicts_rarest_example :
    Picks cmp_pair cmp_pair-IsOrder always
      (λ id. usage id touches 0 none)
      (Lfu.evict_candidate always (run_lfu touches Lfu.new))
lfu_evicts_rarest_example = lfu_evicts_rarest touches always

abbrev lru_2 : LruK.LruK
lru_2 = record { k = 2; clock = 0; hist = [] }

lru_2-new : LruK.new 2 ≡ some lru_2
unfolding LruK.new
lru_2-new = refl

cold_candidate : LruK.evict_candidate always (run_lruk touches lru_2) ≡ some 1
unfolding run_lruk LruK.evict_candidate LruK.record_access LruK.remove kth id_of victim erase insert
    lookup
cold_candidate = refl

cold_accesses : accesses 1 touches 0 none ≡ some (2 ∷ [])
unfolding accesses
cold_accesses = refl

lruk_evicts_cold_first_example :
    (a : List ℕ) × (accesses 1 touches 0 none ≡ some a) × (length a < 2)
lruk_evicts_cold_first_example =
    lruk_evicts_cold_first 1 touches always lru_2 lru_2-new 1 1 (2 ∷ []) cold_candidate refl
      cold_accesses (omega arith)

clock_finds_victim_example :
    (v : ℕ) × (q : Clock.Clock) × (Clock.evict_candidate
        (λ id. id == 1)
        (record { ring = 0 ∷ 1 ∷ 2 ∷ []; referenced = (1, true) ∷ [] })
      ≡ (some v, q))
    × ((v == 1) ≡ true)
clock_finds_victim_example =
    clock_finds_victim (λ id. id == 1) (0 ∷ []) (2 ∷ []) 1 ((1, true) ∷ []) refl
