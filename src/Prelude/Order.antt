-- ===== src/Prelude/Order.antt =====
-- Comparators as Rust writes them (`Ord::cmp`), and what a total preorder gives.
use Prim.Native.Nat.{ℕ, compare, Ordering}
use mathlib.Core.Path.{◌≡◌, refl, sym, ap, ◌∙◌}
use mathlib.Core.Bool.{Bool, true, false}
use mathlib.Core.List.{List, [], ◌∷◌}
use native.Mathlib.Omega.{arith}

-- `Ordering::then_with`
abbrev pub then_with : Ordering → Ordering → Ordering
then_with Ordering.eq o = o
then_with Ordering.lt o = Ordering.lt
then_with Ordering.gt o = Ordering.gt

abbrev pub reverse_ordering : Ordering → Ordering
reverse_ordering Ordering.lt = Ordering.gt
reverse_ordering Ordering.eq = Ordering.eq
reverse_ordering Ordering.gt = Ordering.lt

abbrev pub is_lt : Ordering → Bool
is_lt Ordering.lt = true
is_lt _ = false

abbrev pub is_le : Ordering → Bool
is_le Ordering.gt = false
is_le _ = true

-- The lexicographic order of `[u8]` and `Vec<u8>`.
unfoldable pub cmp_bytes : List ℕ → List ℕ → Ordering
cmp_bytes [] [] = Ordering.eq
cmp_bytes [] (b ∷ ys) = Ordering.lt
cmp_bytes (a ∷ xs) [] = Ordering.gt
cmp_bytes (a ∷ xs) (b ∷ ys) = then_with (compare a b) (cmp_bytes xs ys)

-- A comparator that is a total preorder: `eq` may relate different values.
pub record IsOrder {ℓ} {A : Type ℓ} (cmp : A → A → Ordering) : Type ℓ where
  pub same : (a : A) → cmp a a ≡ Ordering.eq
  pub swap : (a b : A) → cmp b a ≡ reverse_ordering (cmp a b)
  pub trans : (a b c : A) → cmp a b ≡ Ordering.lt → cmp b c ≡ Ordering.lt → cmp a c ≡ Ordering.lt
  pub cong : (a b c : A) → cmp a b ≡ Ordering.eq → cmp a c ≡ cmp b c

pub Ordering-cases {ℓ} :
    {P : Type ℓ} (o : Ordering)
    → (o ≡ Ordering.lt → P)
    → (o ≡ Ordering.eq → P)
    → (o ≡ Ordering.gt → P)
    → P
Ordering-cases Ordering.lt f g h = f refl
Ordering-cases Ordering.eq f g h = g refl
Ordering-cases Ordering.gt f g h = h refl

module _ {ℓ} {A : Type ℓ} (cmp : A → A → Ordering) (o : IsOrder cmp) where
  pub cong_right : (a b c : A) → cmp b c ≡ Ordering.eq → cmp a b ≡ cmp a c
  cong_right a b c h = o.swap b a ∙ ap reverse_ordering (o.cong b c a h) ∙ sym (o.swap c a)

  pub le_trans :
      (a b c : A) → is_le (cmp a b) ≡ true → is_le (cmp b c) ≡ true → is_le (cmp a c) ≡ true
  le_trans a b c h k = ground (arith, o.trans a b c, o.cong a b c, cong_right a b c)

  pub lt_le_trans :
      (a b c : A) → cmp a b ≡ Ordering.lt → is_le (cmp b c) ≡ true → cmp a c ≡ Ordering.lt
  lt_le_trans a b c h k = ground (arith, o.trans a b c, cong_right a b c)

  pub le_lt_trans :
      (a b c : A) → is_le (cmp a b) ≡ true → cmp b c ≡ Ordering.lt → cmp a c ≡ Ordering.lt
  le_lt_trans a b c h k = ground (arith, o.trans a b c, o.cong a b c)

  pub le_of_not_lt : (a b : A) → is_lt (cmp a b) ≡ false → is_le (cmp b a) ≡ true
  le_of_not_lt a b h = ground (arith, o.swap a b)

pub compare-IsOrder : IsOrder compare
compare-IsOrder = record {
  same = λ a. ground arith;
  swap = λ a b. ground arith;
  trans = λ a b c h k. ground arith;
  cong = λ a b c h. ground arith;
}

pub cmp_bytes-same : (a : List ℕ) → cmp_bytes a a ≡ Ordering.eq
unfolding cmp_bytes
cmp_bytes-same [] = refl
cmp_bytes-same (x ∷ xs) = ground (arith, cmp_bytes-same xs)

pub cmp_bytes-eq : (a b : List ℕ) → cmp_bytes a b ≡ Ordering.eq → a ≡ b
unfolding cmp_bytes
cmp_bytes-eq [] [] h = refl
cmp_bytes-eq [] (y ∷ ys) h = cc
cmp_bytes-eq (x ∷ xs) [] h = cc
cmp_bytes-eq (x ∷ xs) (y ∷ ys) h = ground (arith, cmp_bytes-eq xs ys)

cmp_bytes-swap : (a b : List ℕ) → cmp_bytes b a ≡ reverse_ordering (cmp_bytes a b)
unfolding cmp_bytes
cmp_bytes-swap [] [] = refl
cmp_bytes-swap [] (y ∷ ys) = refl
cmp_bytes-swap (x ∷ xs) [] = refl
cmp_bytes-swap (x ∷ xs) (y ∷ ys) = ground (arith, cmp_bytes-swap xs ys)

cmp_bytes_trans :
    (a b c : List ℕ)
    → cmp_bytes a b ≡ Ordering.lt
    → cmp_bytes b c ≡ Ordering.lt
    → cmp_bytes a c ≡ Ordering.lt
unfolding cmp_bytes
cmp_bytes_trans [] b [] h k = ground arith
cmp_bytes_trans [] b (z ∷ zs) h k = refl
cmp_bytes_trans (x ∷ xs) [] c h k = cc
cmp_bytes_trans (x ∷ xs) (y ∷ ys) [] h k = cc
cmp_bytes_trans (x ∷ xs) (y ∷ ys) (z ∷ zs) h k = ground (arith, cmp_bytes_trans xs ys zs)

pub cmp_bytes-IsOrder : IsOrder cmp_bytes
cmp_bytes-IsOrder = record {
  same = cmp_bytes-same;
  swap = cmp_bytes-swap;
  trans = cmp_bytes_trans;
  cong = λ a b c h. ap (λ t. cmp_bytes t c) (cmp_bytes-eq a b h);
}
