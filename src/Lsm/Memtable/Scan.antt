-- ===== src/Lsm/Memtable/Scan.antt =====
-- `scan_at` against the list of the entries that lie in the bounds.
use strata_db.Prelude.{
  ℕ, ◌≡◌, ◌≤◌, refl, inl, inr, List, [], ◌∷◌, some, none, Bool, true, ◌&&◌, if◌then◌else◌,
  Bool-cases, All, leb, arith, ap,
}
use strata_db.Prelude.Order.{is_le, is_lt, cmp_bytes}
use strata_db.Lsm.Key.{InternalKey, KeyValue, cmp_key}
use strata_db.Lsm.Memtable.{
  Bound, included, excluded, unbounded, above_start, below_end, in_order, keep, range,
  BTreeMemtable, scan_at, start_key, end_key, u64_max,
}

-- `Bound`s of user keys.
abbrev pub above_key : Bound (List ℕ) → List ℕ → Bool
above_key (included s) k = is_le (cmp_bytes s k)
above_key (excluded s) k = is_lt (cmp_bytes s k)
above_key unbounded k = true

abbrev pub below_key : Bound (List ℕ) → List ℕ → Bool
below_key (included e) k = is_le (cmp_bytes k e)
below_key (excluded e) k = is_lt (cmp_bytes k e)
below_key unbounded k = true

above_start-key :
    (b : Bound (List ℕ)) (k : InternalKey)
    → k.seq ≤ u64_max
    → above_start (start_key b) k ≡ above_key b k.user_key
unfolding cmp_key
above_start-key (included s) k h = ground arith
above_start-key (excluded s) k h = ground arith
above_start-key unbounded k h = refl

below_end-key :
    (b : Bound (List ℕ)) (k : InternalKey)
    → k.seq ≤ u64_max
    → below_end (end_key b) k ≡ below_key b k.user_key
unfolding cmp_key
below_end-key (included s) k h = ground arith
below_end-key (excluded s) k h = ground arith
below_end-key unbounded k h = refl

abbrev pub in_bounds : Bound (List ℕ) → Bound (List ℕ) → ℕ → KeyValue → Bool
in_bounds s e max_seq kv =
    above_key s kv.key.user_key && below_key e kv.key.user_key && leb kv.key.seq max_seq

keep-keep :
    (s e : Bound (List ℕ)) (max_seq : ℕ) (l : List KeyValue)
    → All (λ kv. kv.key.seq ≤ u64_max) l
    → keep
        (λ kv. leb kv.key.seq max_seq)
        (keep (λ kv. above_start (start_key s) kv.key && below_end (end_key e) kv.key) l)
      ≡ keep (in_bounds s e max_seq) l
unfolding keep
keep-keep s e n [] h = refl
keep-keep s e n (kv ∷ l) h =
    rw (above_start-key s kv.key h.0, below_end-key e kv.key h.0)
      (ground (arith, keep-keep s e n l h.1))

-- Whether `BTreeMap::range` accepts the bounds of user keys: an inclusive range may be a single
-- key, and a range that excludes an end holds at least that much.
abbrev pub accepts : Bound (List ℕ) → Bound (List ℕ) → Bool
accepts (included s) (included e) = is_le (cmp_bytes s e)
accepts (included s) (excluded e) = is_le (cmp_bytes s e)
accepts (excluded s) (included e) = is_le (cmp_bytes s e)
accepts (excluded s) (excluded e) = is_lt (cmp_bytes s e)
accepts _ _ = true

in_order-accepts : (s e : Bound (List ℕ)) → in_order (start_key s) (end_key e) ≡ accepts s e
unfolding cmp_key
in_order-accepts (included s) (included e) = ground arith
in_order-accepts (included s) (excluded e) = ground arith
in_order-accepts (included s) unbounded = refl
in_order-accepts (excluded s) (included e) = ground arith
in_order-accepts (excluded s) (excluded e) = ground arith
in_order-accepts (excluded s) unbounded = refl
in_order-accepts unbounded (included e) = refl
in_order-accepts unbounded (excluded e) = refl
in_order-accepts unbounded unbounded = refl

-- Where the sequence numbers fit 64 bits, a scan as of `max_seq` whose bounds do not cross gives
-- exactly the entries, in order, whose user keys lie in the bounds and whose sequence numbers are
-- at most `max_seq`; the lookup panics on bounds that cross.
pub scan_at-in_bounds :
    (s e : Bound (List ℕ)) (max_seq : ℕ) (m : BTreeMemtable)
    → All (λ kv. kv.key.seq ≤ u64_max) m.store
    → scan_at s e max_seq m
      ≡ (if accepts s e then some (keep (in_bounds s e max_seq) m.store) else none)
unfolding scan_at range
scan_at-in_bounds s e n m h =
    rw (scan_at, in_order-accepts s e)
      (elim (Bool-cases (accepts s e)) [
        | inl fits ↦ rw fits (ap some (keep-keep s e n m.store h))
        | inr crossed ↦ rw crossed
      ])
