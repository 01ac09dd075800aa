-- ===== src/Filesystem/Policies/LruK/Cold.antt =====
-- What `LruK` evicts, by the history of accesses.
use mathlib.Core.Path.{subst}
use strata_db.Prelude.{
  ℕ, zero, suc, ◌+◌, ◌≤◌, ◌<◌, ◌≡◌, refl, sym, ◌∙◌, ap, List, [], ◌∷◌, Option, none, some, Bool,
  true, false, ltb-eq_false, ◌==◌, if◌then◌else◌, take, length, length-take, get_elem?, All, arith,
}
use strata_db.Prelude.Order.{IsOrder, is_le}
use strata_db.Prelude.Maps.{
  lookup, lookup-insert, lookup-erase, Distinct, insert-Distinct, erase-Distinct,
}
use strata_db.Filesystem.Policies.{or_default, victim, id_of}
use strata_db.Filesystem.Policies.Victim.{Picks, victim-Picks}
use strata_db.Filesystem.Policies.Lru.Recency.{Op, accessed, removed}
use strata_db.Filesystem.Policies.Lfu.Frequency.{cmp_pair-IsOrder}
use strata_db.Filesystem.Policies.LruK.{
  LruK, new, record_access, evict_candidate, remove, kth, cmp_ticks,
}

pub cmp_ticks-IsOrder : (k : ℕ) → IsOrder (cmp_ticks k)
cmp_ticks-IsOrder k = record {
  same = λ a. cmp_pair-IsOrder.same _;
  swap = λ a b. cmp_pair-IsOrder.swap _ _;
  trans = λ a b c h l. cmp_pair-IsOrder.trans _ _ _ h l;
  cong = λ a b c h. cmp_pair-IsOrder.cong _ _ _ h;
}

unfoldable pub run_lruk : List Op → LruK → LruK
run_lruk [] p = p
run_lruk (accessed id ∷ ops) p = run_lruk ops (record_access id p)
run_lruk (removed id ∷ ops) p = run_lruk ops (remove id p)

-- The numbers of all accesses of `id` since it was last removed, newest first.
unfoldable pub accesses : ℕ → List Op → ℕ → Option (List ℕ) → Option (List ℕ)
accesses id [] n found = found
accesses id (accessed j ∷ ops) n found =
    accesses id ops (n + 1) (if j == id then some ((n + 1) ∷ or_default [] found) else found)
accesses id (removed j ∷ ops) n found = accesses id ops n (if j == id then none else found)

abbrev pub take_some : ℕ → Option (List ℕ) → Option (List ℕ)
take_some k none = none
take_some k (some l) = some (take k l)

take-suc : (k : ℕ) (l : List ℕ) → take k (take (suc k) l) ≡ take k l
take-suc zero l = refl
take-suc (suc k) [] = refl
take-suc (suc k) (x ∷ l) = ap (◌∷◌ x) (take-suc k l)

take-cons :
    (k t : ℕ) (o : Option (List ℕ))
    → take k (t ∷ or_default [] (take_some k o)) ≡ take k (t ∷ or_default [] o)
take-cons zero t o = refl
take-cons (suc k) t none = refl
take-cons (suc k) t (some l) = ap (◌∷◌ t) (take-suc k l)

run-accesses :
    (ops : List Op) (p : LruK) (id : ℕ) (found : Option (List ℕ))
    → lookup id p.hist ≡ take_some p.k found
    → lookup id (run_lruk ops p).hist ≡ take_some p.k (accesses id ops p.clock found)
unfolding run_lruk accesses record_access remove
run-accesses [] p id found e = e
run-accesses (accessed j ∷ ops) p id found e =
    run-accesses ops (record_access j p) id
      (if j == id then some ((p.clock + 1) ∷ or_default [] found) else found)
      (lookup-insert id j _ p.hist ∙ own)
  where
    own :
        (if j == id
          then some (take p.k ((p.clock + 1) ∷ or_default [] (lookup j p.hist)))
          else lookup id p.hist)
        ≡ take_some p.k (if j == id then some ((p.clock + 1) ∷ or_default [] found) else found)
    own = ground (arith, e, take-cons p.k (p.clock + 1) found)
run-accesses (removed j ∷ ops) p id found e =
    run-accesses ops (remove j p) id (if j == id then none else found)
      (lookup-erase id j p.hist ∙ gone)
  where
    gone :
        (if j == id then none else lookup id p.hist)
        ≡ take_some p.k (if j == id then none else found)
    gone = ground (arith, e)

run-Distinct : (ops : List Op) (p : LruK) → Distinct p.hist → Distinct (run_lruk ops p).hist
unfolding run_lruk record_access remove
run-Distinct [] p d = d
run-Distinct (accessed j ∷ ops) p d =
    run-Distinct ops (record_access j p) (insert-Distinct j _ p.hist d)
run-Distinct (removed j ∷ ops) p d = run-Distinct ops (remove j p) (erase-Distinct j p.hist d)

run-k : (ops : List Op) (p : LruK) → (run_lruk ops p).k ≡ p.k
unfolding run_lruk record_access remove
run-k [] p = refl
run-k (accessed j ∷ ops) p = run-k ops (record_access j p)
run-k (removed j ∷ ops) p = run-k ops (remove j p)

abbrev AllPos : Option (List ℕ) → Type 0
AllPos none = Unit
AllPos (some l) = All (λ t. 0 < t) l

choose-AllPos :
    (b : Bool) (x y : Option (List ℕ)) → AllPos x → AllPos y → AllPos (if b then x else y)
choose-AllPos true x y h k = h
choose-AllPos false x y h k = k

default-AllPos : (found : Option (List ℕ)) → AllPos found → All (λ t. 0 < t) (or_default [] found)
default-AllPos none h = tt
default-AllPos (some l) h = h

accesses-AllPos :
    (id : ℕ) (ops : List Op) (n : ℕ) (found : Option (List ℕ))
    → AllPos found
    → AllPos (accesses id ops n found)
unfolding accesses
accesses-AllPos id [] n found h = h
accesses-AllPos id (accessed j ∷ ops) n found h =
    accesses-AllPos id ops (n + 1) _
      (choose-AllPos (j == id) _ found (omega arith, default-AllPos found h) h)
accesses-AllPos id (removed j ∷ ops) n found h =
    accesses-AllPos id ops n _ (choose-AllPos (j == id) none found tt h)

nth-pos :
    (k : ℕ) (l : List ℕ)
    → All (λ t. 0 < t) l
    → k < length l
    → 0 < or_default 0 (get_elem? (take (suc k) l) k)
nth-pos k [] h enough = absurd (omega arith)
nth-pos zero (x ∷ l) h enough = h.0
nth-pos (suc k) (x ∷ l) h enough = nth-pos k l h.1 (omega arith)

-- The k-th of at least k positive ticks is positive.
kth-pos :
    (k : ℕ) (l : List ℕ) → All (λ t. 0 < t) l → suc k ≤ length l → 0 < kth (suc k) (take (suc k) l)
unfolding kth
kth-pos k l h enough =
    rw (ltb-eq_false (length (take (suc k) l)) (suc k) (omega (arith, length-take (suc k) l)), kth)
      (subst (λ i. 0 < or_default 0 (get_elem? (take (suc k) l) i)) (omega arith)
        (nth-pos k l h enough))

kth-cold : (k : ℕ) (l : List ℕ) → length l < k → kth k (take k l) ≡ 0
unfolding kth
kth-cold k l h = ground (arith, length-take k l)

cold-first :
    (k : ℕ) (a b : List ℕ)
    → All (λ t. 0 < t) a
    → is_le (cmp_ticks (suc k) (take (suc k) a) (take (suc k) b)) ≡ true
    → length b < suc k
    → length a < suc k
cold-first k a b pos le cold = ground (arith, kth-pos k a pos, kth-cold (suc k) b cold)

take_some-inv :
    (k : ℕ) (o : Option (List ℕ)) (l : List ℕ)
    → take_some k o ≡ some l
    → (a : List ℕ) × (o ≡ some a) × (take k a ≡ l)
take_some-inv k none l e = cc
take_some-inv k (some a) l e = (a, refl, ground arith)

history : ℕ → List Op → ℕ → Option (List ℕ)
history k ops id = take_some k (accesses id ops 0 none)

fresh : ℕ → LruK
fresh k = record { k = suc k; clock = 0; hist = [] }

fresh-Picks :
    (k : ℕ) (ops : List Op) (evictable : ℕ → Bool)
    → Picks
        (cmp_ticks (suc k))
        (cmp_ticks-IsOrder (suc k))
        evictable
        (history (suc k) ops)
        (evict_candidate evictable (run_lruk ops (fresh k)))
unfolding evict_candidate fresh history lookup
fresh-Picks k ops evictable =
    subst
      (λ c.
        Picks (cmp_ticks (suc k)) (cmp_ticks-IsOrder (suc k)) evictable (history (suc k) ops)
          (id_of (victim (cmp_ticks c) evictable (run_lruk ops (fresh k)).hist)))
      (sym (run-k ops (fresh k)))
      (victim-Picks (cmp_ticks (suc k)) (cmp_ticks-IsOrder (suc k)) evictable
        (run_lruk ops (fresh k)).hist (history (suc k) ops)
        (run-Distinct ops (fresh k) (unfold Distinct in tt))
        (λ i. run-accesses ops (fresh k) i none refl))

lruk-Picks :
    (k : ℕ) (ops : List Op) (evictable : ℕ → Bool) (p : LruK)
    → new (suc k) ≡ some p
    → Picks
        (cmp_ticks (suc k))
        (cmp_ticks-IsOrder (suc k))
        evictable
        (history (suc k) ops)
        (evict_candidate evictable (run_lruk ops p))
unfolding new fresh
lruk-Picks k ops evictable p e =
    let same : fresh k ≡ p = cc in
    subst
      (λ q.
        Picks (cmp_ticks (suc k)) (cmp_ticks-IsOrder (suc k)) evictable (history (suc k) ops)
          (evict_candidate evictable (run_lruk ops q)))
      same (fresh-Picks k ops evictable)

-- A candidate was accessed fewer than `k` times since it was last removed wherever any evictable id
-- was, so that a scan that touches ids once evicts none of those that were touched `k` times.
pub lruk_evicts_cold_first :
    (k : ℕ) (ops : List Op) (evictable : ℕ → Bool) (p : LruK)
    → new (suc k) ≡ some p
    → (v j : ℕ) (b : List ℕ) → evict_candidate evictable (run_lruk ops p) ≡ some v
    → evictable j ≡ true
    → accesses j ops 0 none ≡ some b
    → length b < suc k
    → (a : List ℕ) × (accesses v ops 0 none ≡ some a) × (length a < suc k)
unfolding Picks history
lruk_evicts_cold_first k ops evictable p e v j b picked may eb cold =
    let (may_v, (w, found, least)) =
      subst (Picks (cmp_ticks (suc k)) (cmp_ticks-IsOrder (suc k)) evictable (history (suc k) ops))
        picked (lruk-Picks k ops evictable p e) in
    let (a, ea, ta) = take_some-inv (suc k) (accesses v ops 0 none) w found in
    let pos = subst AllPos ea (accesses-AllPos v ops 0 none tt) in
    (a, ea, cold-first k a b pos (rw ta (least j (take (suc k) b) may (rw eb refl))) cold)
