-- ===== src/Filesystem/Memo/Examples.antt =====
-- Tests of crates/filesystem/src/cache/memo.rs, after the tests there.
use strata_db.Prelude.{ℕ, ◌≤◌, ◌≡◌, refl, List, [], ◌∷◌, false, length, ok, arith}
use strata_db.Prelude.Maps.{insert, lookup}
use strata_db.Filesystem.Codec.{DecodeError}
use strata_db.Filesystem.Policies.Lru
use strata_db.Filesystem.Policies.Lru.{Lru}
use strata_db.Filesystem.Memo.{
  Budget, Cache, new, over, over_budget, evict_to_budget, store, get_or_load,
}
use strata_db.Filesystem.Memo.Within.{Kept, new-Kept, get_or_load-Kept}
use strata_db.Filesystem.Memo.LruBacked.{lru_policy, lru_tracks}

abbrev three_bytes : ℕ → List ℕ
three_bytes k = k ∷ k ∷ k ∷ []

-- A cache of four bytes, over the least recently used policy.
abbrev small_cache : Cache (List ℕ) Lru
small_cache = new lru_policy length (Budget.bytes 4) Lru.new

abbrev one_cached : Cache (List ℕ) Lru
one_cached =
    (get_or_load lru_policy length {E = DecodeError} 4 7 (ok (three_bytes 7)) small_cache).1

one_cached-Kept :
    Kept lru_policy length lru_tracks three_bytes one_cached
    × (over_budget lru_policy length one_cached ≡ false)
unfolding new Lru.new over_budget over lru_tracks Lru.record_access insert
one_cached-Kept =
    let (answer, kept, within) =
      get_or_load-Kept lru_policy length lru_tracks {E = DecodeError} three_bytes 4 7 small_cache
        (new-Kept lru_policy length lru_tracks three_bytes (Budget.bytes 4) Lru.new) refl
        (omega arith) in
    (kept, within)

one_more : lru_tracks.size (lru_policy.record_access 9 one_cached.policy) ≤ 4
unfolding new Lru.new over_budget over lru_tracks Lru.record_access insert get_or_load store
    evict_to_budget lookup
one_more = omega arith

-- The second page does not fit beside the first one.
get_or_load-Kept_example :
    let r = get_or_load lru_policy length {E = DecodeError} 4 9 (ok (three_bytes 9)) one_cached in
    (r.0 ≡ ok (three_bytes 9))
    × Kept lru_policy length lru_tracks three_bytes r.1
    × (over_budget lru_policy length r.1 ≡ false)
get_or_load-Kept_example =
    get_or_load-Kept lru_policy length lru_tracks {E = DecodeError} three_bytes 4 9 one_cached
      one_cached-Kept.0 one_cached-Kept.1 one_more
