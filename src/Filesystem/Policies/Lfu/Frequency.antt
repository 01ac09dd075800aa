-- ===== src/Filesystem/Policies/Lfu/Frequency.antt =====
-- What `Lfu` evicts, by the history of accesses.
use strata_db.Prelude.{
  ℕ, ◌+◌, ◌≡◌, refl, ◌∙◌, ap, List, [], ◌∷◌, Option, none, some, Bool, ◌==◌, if◌then◌else◌, arith,
}
use strata_db.Prelude.Order.{IsOrder}
use strata_db.Prelude.Maps.{
  lookup, lookup-insert, lookup-erase, Distinct, insert-Distinct, erase-Distinct,
}
use strata_db.Filesystem.Policies.{cmp_pair, or_default}
use strata_db.Filesystem.Policies.Victim.{Picks, victim-Picks}
use strata_db.Filesystem.Policies.Lru.Recency.{Op, accessed, removed}
use strata_db.Filesystem.Policies.Lfu.{Lfu, new, record_access, evict_candidate, remove}

pub cmp_pair-IsOrder : IsOrder cmp_pair
cmp_pair-IsOrder = record {
  same = λ a. ground arith;
  swap = λ a b. ground arith;
  trans = λ a b c h k. ground arith;
  cong = λ a b c h. ground arith;
}

unfoldable pub run_lfu : List Op → Lfu → Lfu
run_lfu [] p = p
run_lfu (accessed id ∷ ops) p = run_lfu ops (record_access id p)
run_lfu (removed id ∷ ops) p = run_lfu ops (remove id p)

-- How often `id` was accessed since it was last removed, and when last.
unfoldable pub usage : ℕ → List Op → ℕ → Option (ℕ × ℕ) → Option (ℕ × ℕ)
usage id [] n found = found
usage id (accessed j ∷ ops) n found =
    usage id ops (n + 1) (if j == id then some ((or_default (0, 0) found).0 + 1, n + 1) else found)
usage id (removed j ∷ ops) n found = usage id ops n (if j == id then none else found)

run-usage :
    (ops : List Op) (p : Lfu) (id : ℕ)
    → lookup id (run_lfu ops p).freq ≡ usage id ops p.clock (lookup id p.freq)
unfolding run_lfu usage record_access remove
run-usage [] p id = refl
run-usage (accessed j ∷ ops) p id =
    run-usage ops (record_access j p) id
    ∙ ap (usage id ops (p.clock + 1))
        (lookup-insert id j ((or_default (0, 0) (lookup j p.freq)).0 + 1, p.clock + 1) p.freq ∙ own)
  where
    own :
        (if j == id
          then some ((or_default (0, 0) (lookup j p.freq)).0 + 1, p.clock + 1)
          else lookup id p.freq)
        ≡ (if j == id
            then some ((or_default (0, 0) (lookup id p.freq)).0 + 1, p.clock + 1)
            else lookup id p.freq)
    own = ground arith
run-usage (removed j ∷ ops) p id =
    run-usage ops (remove j p) id ∙ ap (usage id ops p.clock) (lookup-erase id j p.freq)

run-Distinct : (ops : List Op) (p : Lfu) → Distinct p.freq → Distinct (run_lfu ops p).freq
unfolding run_lfu record_access remove
run-Distinct [] p d = d
run-Distinct (accessed j ∷ ops) p d =
    run-Distinct ops (record_access j p) (insert-Distinct j _ p.freq d)
run-Distinct (removed j ∷ ops) p d = run-Distinct ops (remove j p) (erase-Distinct j p.freq d)

-- After any accesses and removals, the candidate is an evictable id that was accessed no more often
-- than any other evictable id, and of equally often accessed ones no later; there is none only if
-- every evictable id was never accessed, or was removed since.
pub lfu_evicts_rarest :
    (ops : List Op) (evictable : ℕ → Bool)
    → Picks cmp_pair cmp_pair-IsOrder evictable
        (λ id. usage id ops 0 none)
        (evict_candidate evictable (run_lfu ops new))
unfolding evict_candidate new lookup
lfu_evicts_rarest ops evictable =
    victim-Picks cmp_pair cmp_pair-IsOrder evictable (run_lfu ops new).freq
      (λ id. usage id ops 0 none) (run-Distinct ops new (unfold Distinct in tt))
      (λ j. run-usage ops new j)
