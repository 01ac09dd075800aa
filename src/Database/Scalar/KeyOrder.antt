-- ===== src/Database/Scalar/KeyOrder.antt =====
-- The byte order of keys is the order of what they encode.
use native.Mathlib.Nat.{pow-suc}
use strata_db.Prelude.{
  ℕ, zero, suc, ◌*◌, ◌/◌, ◌%◌, ◌^◌, ◌<◌, ◌≡◌, ◌∙◌, ap, List, [], ◌∷◌, ◌++◌, length, ltb,
  if◌then◌else◌, compare, Ordering, arith,
}
use strata_db.Prelude.Order.{then_with, cmp_bytes}
use strata_db.Filesystem.Codec.{to_be_bytes}
use strata_db.Filesystem.Codec.RoundTrip.{length-to_be_bytes}
use strata_db.Database.Scalar.{flip_top, encode_key_int, encode_key_float}

-- The order of signed integers, by their two's complement bits.
abbrev pub cmp_signed : ℕ → ℕ → ℕ → Ordering
cmp_signed half a b =
    if ltb a half
    then (if ltb b half then compare a b else Ordering.gt)
    else (if ltb b half then Ordering.lt else compare a b)

-- The total order of IEEE floats, by their bits: among negative ones the larger magnitude first.
abbrev pub cmp_total : ℕ → ℕ → ℕ → Ordering
cmp_total half a b =
    if ltb a half
    then (if ltb b half then compare a b else Ordering.gt)
    else (if ltb b half then Ordering.lt else compare b a)

cmp_bytes-append :
    (xs ys : List ℕ) (x y : ℕ)
    → length xs ≡ length ys
    → cmp_bytes (xs ++ (x ∷ [])) (ys ++ (y ∷ [])) ≡ then_with (cmp_bytes xs ys) (compare x y)
unfolding cmp_bytes
cmp_bytes-append [] [] x y h = ground arith
cmp_bytes-append [] (b ∷ ys) x y h = absurd (omega arith)
cmp_bytes-append (a ∷ xs) [] x y h = absurd (omega arith)
cmp_bytes-append (a ∷ xs) (b ∷ ys) x y h = ground (arith, cmp_bytes-append xs ys x y (omega arith))

digits :
    (a b : ℕ) → then_with (compare (a / 256) (b / 256)) (compare (a % 256) (b % 256)) ≡ compare a b
digits a b = ground arith

-- Big-endian bytes of numbers that fit compare as the numbers.
cmp_bytes-to_be_bytes :
    (n a b : ℕ)
    → a < 256 ^ n
    → b < 256 ^ n
    → cmp_bytes (to_be_bytes n a) (to_be_bytes n b) ≡ compare a b
unfolding to_be_bytes
cmp_bytes-to_be_bytes zero a b h k = unfold cmp_bytes in ground arith
cmp_bytes-to_be_bytes (suc n) a b h k =
    cmp_bytes-append (to_be_bytes n (a / 256)) (to_be_bytes n (b / 256)) (a % 256) (b % 256)
      (omega (arith, length-to_be_bytes n (a / 256), length-to_be_bytes n (b / 256)))
    ∙ ap (λ o. then_with o (compare (a % 256) (b % 256)))
        (cmp_bytes-to_be_bytes n (a / 256) (b / 256) (omega (arith, pow-suc 256 n))
          (omega (arith, pow-suc 256 n)))
    ∙ digits a b

-- The keys of signed integers of one width compare as the integers.
pub encode_key_int-order :
    (n half a b : ℕ)
    → half * 2 ≡ 256 ^ n
    → a < half * 2
    → b < half * 2
    → cmp_bytes (encode_key_int n half a) (encode_key_int n half b) ≡ cmp_signed half a b
unfolding encode_key_int
encode_key_int-order n half a b w ha hb =
    cmp_bytes-to_be_bytes n (flip_top half a) (flip_top half b) (ground arith) (ground arith)
    ∙ ground arith

-- The keys of floats of one width compare in the IEEE total order of the floats.
pub encode_key_float-order :
    (n half a b : ℕ)
    → half * 2 ≡ 256 ^ n
    → a < half * 2
    → b < half * 2
    → cmp_bytes (encode_key_float n half a) (encode_key_float n half b) ≡ cmp_total half a b
unfolding encode_key_float
encode_key_float-order n half a b w ha hb =
    cmp_bytes-to_be_bytes n _ _ (ground arith) (ground arith) ∙ ground arith
