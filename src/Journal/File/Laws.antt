-- ===== src/Journal/File/Laws.antt =====
-- Writes at the end of a file.
use strata_db.Prelude.{
  ℕ, zero, suc, ◌+◌, ◌-◌, ◌≤◌, ◌≡◌, refl, ap, List, [], ◌∷◌, ◌++◌, append-nil, length, take, drop,
  arith,
}
use strata_db.Journal.File.{File, zeros, write_all}

module _ {ℓ} {A : Type ℓ} where
  pub take_all : (n : ℕ) (xs : List A) → length xs ≤ n → take n xs ≡ xs
  take_all zero [] h = refl
  take_all zero (x ∷ xs) h = absurd (omega arith)
  take_all (suc n) [] h = refl
  take_all (suc n) (x ∷ xs) h = ap (◌∷◌ x) (take_all n xs (omega arith))

  pub drop_all : (n : ℕ) (xs : List A) → length xs ≤ n → drop n xs ≡ []
  drop_all zero [] h = refl
  drop_all zero (x ∷ xs) h = absurd (omega arith)
  drop_all (suc n) [] h = refl
  drop_all (suc n) (x ∷ xs) h = drop_all n xs (omega arith)

-- A write with the cursor at the end appends.
pub write_all_at_end :
    (f : File) (data' : List ℕ)
    → f.cursor ≡ length f.bytes
    → write_all f data'
      ≡ record { bytes = f.bytes ++ data'; cursor = length f.bytes + length data' }
unfolding write_all zeros
write_all_at_end f data' h = rw (h) (
    rw (take_all (length f.bytes) f.bytes (omega arith)) (
      rw (drop_all (length f.bytes + length data') f.bytes (omega arith))
        (rw (append-nil data') (rw none_missing))))
  where
    none_missing : length f.bytes - length f.bytes ≡ 0
    none_missing = omega arith
