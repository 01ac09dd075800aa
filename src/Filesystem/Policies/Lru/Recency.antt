-- ===== src/Filesystem/Policies/Lru/Recency.antt =====
-- What `Lru` evicts, by the history of accesses.
use strata_db.Prelude.{
  ℕ, ◌+◌, ◌≡◌, refl, ◌∙◌, ap, List, [], ◌∷◌, Option, none, some, Bool, ◌==◌, if◌then◌else◌, compare,
}
use strata_db.Prelude.Order.{compare-IsOrder}
use strata_db.Prelude.Maps.{
  lookup, lookup-insert, lookup-erase, Distinct, insert-Distinct, erase-Distinct,
}
use strata_db.Filesystem.Policies.Victim.{Picks, victim-Picks}
use strata_db.Filesystem.Policies.Lru.{Lru, new, record_access, evict_candidate, remove}

pub data Op : Type 0 where
  accessed : ℕ → Op
  removed : ℕ → Op

unfoldable pub run : List Op → Lru → Lru
run [] p = p
run (accessed id ∷ ops) p = run ops (record_access id p)
run (removed id ∷ ops) p = run ops (remove id p)

-- The number of the last access of `id` among the accesses counted from `n` on, where `found` was
-- the last one before: none if the id was removed since.
unfoldable pub last_use : ℕ → List Op → ℕ → Option ℕ → Option ℕ
last_use id [] n found = found
last_use id (accessed j ∷ ops) n found =
    last_use id ops (n + 1) (if j == id then some (n + 1) else found)
last_use id (removed j ∷ ops) n found = last_use id ops n (if j == id then none else found)

run-lookup :
    (ops : List Op) (p : Lru) (id : ℕ)
    → lookup id (run ops p).last ≡ last_use id ops p.clock (lookup id p.last)
unfolding run last_use record_access remove
run-lookup [] p id = refl
run-lookup (accessed j ∷ ops) p id =
    run-lookup ops (record_access j p) id
    ∙ ap (last_use id ops (p.clock + 1)) (lookup-insert id j (p.clock + 1) p.last)
run-lookup (removed j ∷ ops) p id =
    run-lookup ops (remove j p) id ∙ ap (last_use id ops p.clock) (lookup-erase id j p.last)

run-Distinct : (ops : List Op) (p : Lru) → Distinct p.last → Distinct (run ops p).last
unfolding run record_access remove
run-Distinct [] p d = d
run-Distinct (accessed j ∷ ops) p d =
    run-Distinct ops (record_access j p) (insert-Distinct j (p.clock + 1) p.last d)
run-Distinct (removed j ∷ ops) p d = run-Distinct ops (remove j p) (erase-Distinct j p.last d)

-- After any accesses and removals, the candidate is an evictable id whose last access lies no later
-- than that of any other evictable id; there is none only if every evictable id was never accessed,
-- or was removed since.
pub lru_evicts_oldest :
    (ops : List Op) (evictable : ℕ → Bool)
    → Picks compare compare-IsOrder evictable
        (λ id. last_use id ops 0 none)
        (evict_candidate evictable (run ops new))
unfolding evict_candidate new lookup
lru_evicts_oldest ops evictable =
    victim-Picks compare compare-IsOrder evictable (run ops new).last (λ id. last_use id ops 0 none)
      (run-Distinct ops new (unfold Distinct in tt)) (λ j. run-lookup ops new j)
