-- ===== src/Lsm/Overlap.antt =====
-- crates/lsm/src/lib.rs, `overlaps`: whether a scan has to look into a table.
use strata_db.Prelude.{ℕ, ◌≡◌, refl, List, Bool, true, false, not, ◌||◌, arith}
use strata_db.Prelude.Order.{
  is_le, is_lt, cmp_bytes, cmp_bytes-IsOrder, le_trans, lt_le_trans, le_lt_trans,
}
use strata_db.Lsm.Key.{KeyRange, contains}
use strata_db.Lsm.Memtable.{Bound, included, excluded, unbounded}
use strata_db.Lsm.Memtable.Scan.{above_key, below_key}

-- `below`: the whole table lies behind the end of the scan.
abbrev pub past_end : KeyRange → Bound (List ℕ) → Bool
past_end r (included e) = is_lt (cmp_bytes e r.min)
past_end r (excluded e) = is_le (cmp_bytes e r.min)
past_end r unbounded = false

-- `above`: the whole table lies in front of the start of the scan.
abbrev pub before_start : KeyRange → Bound (List ℕ) → Bool
before_start r (included s) = is_lt (cmp_bytes r.max s)
before_start r (excluded s) = is_le (cmp_bytes r.max s)
before_start r unbounded = false

unfoldable pub overlaps : KeyRange → Bound (List ℕ) → Bound (List ℕ) → Bool
overlaps r start end_ = not (past_end r end_ || before_start r start)

past_end-below :
    (r : KeyRange) (e : Bound (List ℕ)) (k : List ℕ)
    → is_le (cmp_bytes r.min k) ≡ true
    → below_key e k ≡ true
    → past_end r e ≡ false
past_end-below r (included e) k h b =
    ground
      (arith, le_trans cmp_bytes cmp_bytes-IsOrder r.min k e h b, cmp_bytes-IsOrder.swap r.min e)
past_end-below r (excluded e) k h b =
    ground
      (arith, le_lt_trans cmp_bytes cmp_bytes-IsOrder r.min k e h, cmp_bytes-IsOrder.swap r.min e)
past_end-below r unbounded k h b = refl

before_start-above :
    (r : KeyRange) (s : Bound (List ℕ)) (k : List ℕ)
    → is_le (cmp_bytes k r.max) ≡ true
    → above_key s k ≡ true
    → before_start r s ≡ false
before_start-above r (included s) k h b =
    ground
      (arith, le_trans cmp_bytes cmp_bytes-IsOrder s k r.max b h, cmp_bytes-IsOrder.swap s r.max)
before_start-above r (excluded s) k h b =
    ground
      (arith, lt_le_trans cmp_bytes cmp_bytes-IsOrder s k r.max, cmp_bytes-IsOrder.swap s r.max)
before_start-above r unbounded k h b = refl

-- A table whose range holds any key of the scan is never left out.
pub overlaps-contains :
    (r : KeyRange) (s e : Bound (List ℕ)) (k : List ℕ)
    → contains r k ≡ true
    → above_key s k ≡ true
    → below_key e k ≡ true
    → overlaps r s e ≡ true
unfolding overlaps contains
overlaps-contains r s e k c a b = ground (arith, past_end-below r e k, before_start-above r s k)
