-- ===== src/Lsm/Key/Laws.antt =====
-- The order of records, and key ranges.
use mathlib.Core.Path.{subst}
use strata_db.Prelude.{ℕ, ◌≡◌, refl, ◌↔◌, List, [], ◌∷◌, true, false, arith}
use strata_db.Prelude.Order.{
  IsOrder, is_le, cmp_bytes, cmp_bytes-IsOrder, cmp_bytes-eq, cmp_bytes-same, le_trans,
}
use strata_db.Lsm.Key.{cmp_key, cmp_kv, bytes_eq, KeyRange, contains, union}

pub bytes_eq_iff : (a b : List ℕ) → (bytes_eq a b ≡ true) ↔ (a ≡ b)
unfolding bytes_eq
bytes_eq_iff a b = (sound a b, λ e. subst (λ t. bytes_eq a t ≡ true) e (self a))
  where
    sound : (a b : List ℕ) → bytes_eq a b ≡ true → a ≡ b
    sound [] [] h = refl
    sound [] (y ∷ ys) h = cc
    sound (x ∷ xs) [] h = cc
    sound (x ∷ xs) (y ∷ ys) h = ground (arith, sound xs ys)

    self : (a : List ℕ) → bytes_eq a a ≡ true
    self [] = refl
    self (x ∷ xs) = ground (arith, self xs)

-- Records are totally preordered: by user key, and the newest version of a key first.
pub cmp_kv-IsOrder : IsOrder cmp_kv
unfolding cmp_key
cmp_kv-IsOrder = record {
  same = λ a. ground (arith, cmp_bytes-same a.key.user_key);
  swap = λ a b. ground (arith, cmp_bytes-IsOrder.swap a.key.user_key b.key.user_key);
  trans = λ a b c h k. ground (
    arith,
    cmp_bytes-IsOrder.trans a.key.user_key b.key.user_key c.key.user_key,
    cmp_bytes-eq a.key.user_key b.key.user_key,
    cmp_bytes-eq b.key.user_key c.key.user_key,
    cmp_bytes-same b.key.user_key,
  );
  cong = λ a b c h. ground (arith, cmp_bytes-eq a.key.user_key b.key.user_key);
}

-- `r` covers every key of `a`.
abbrev pub Covers : KeyRange → KeyRange → Type 0
Covers r a = (is_le (cmp_bytes r.min a.min) ≡ true) × (is_le (cmp_bytes a.max r.max) ≡ true)

bytes_le_total : (a b : List ℕ) → is_le (cmp_bytes a b) ≡ false → is_le (cmp_bytes b a) ≡ true
bytes_le_total a b h = ground (arith, cmp_bytes-IsOrder.swap a b)

bytes_le_self : (a : List ℕ) → is_le (cmp_bytes a a) ≡ true
bytes_le_self a = ground (arith, cmp_bytes-same a)

-- The union of two key ranges covers both, and any range that covers both covers it.
pub union_least :
    (a b : KeyRange)
    → Covers (union a b) a
      × Covers (union a b) b
      × ((r : KeyRange) → Covers r a → Covers r b → Covers r (union a b))
unfolding union
union_least a b = (lower, upper, λ r h k. (ground arith, ground arith))
  where
    lower : Covers (union a b) a
    lower = (
      ground (arith, bytes_le_self a.min, bytes_le_total a.min b.min),
      ground (arith, bytes_le_self a.max),
    )

    upper : Covers (union a b) b
    upper = (
      ground (arith, bytes_le_self b.min),
      ground (arith, bytes_le_self b.max, bytes_le_total a.max b.max),
    )

-- A range holds exactly the keys between its ends, so what it covers it contains.
pub contains_of_Covers :
    (r a : KeyRange) (k : List ℕ) → Covers r a → contains a k ≡ true → contains r k ≡ true
unfolding contains
contains_of_Covers r a k h c = ground (
  arith,
  le_trans cmp_bytes cmp_bytes-IsOrder r.min a.min k,
  le_trans cmp_bytes cmp_bytes-IsOrder k a.max r.max,
)
