-- ===== src/Filesystem/TuplePage/Writes.antt =====
-- Reading back what was copied into a page.
use strata_db.Prelude.{
  ℕ, zero, suc, ◌+◌, ◌-◌, ◌≤◌, ◌≡◌, refl, sym, ap, ◌∙◌, inl, inr, ◌⊎◌, List, [], ◌∷◌, ◌++◌,
  append_assoc, length, length-append, length-take_le, length-drop, All, take, drop, take-append,
  drop-append, take-drop-append, arith,
}
use strata_db.Filesystem.TuplePage.{copy_at}

take-drop : (n : ℕ) (xs : List ℕ) → take n xs ++ drop n xs ≡ xs
take-drop zero xs = refl
take-drop (suc n) [] = refl
take-drop (suc n) (x ∷ xs) = ap (◌∷◌ x) (take-drop n xs)

take-drop_front :
    (n k m : ℕ) (xs ys : List ℕ)
    → k + n ≤ m
    → m ≤ length xs
    → take n (drop k (take m xs ++ ys)) ≡ take n (drop k xs)
take-drop_front n k m xs ys h room =
    let cut : k + n ≤ length (take m xs) = omega (arith, length-take_le m xs room) in
    take-drop-append n k (take m xs) ys cut
    ∙ sym (take-drop-append n k (take m xs) (drop m xs) cut)
    ∙ ap (λ t. take n (drop k t)) (take-drop m xs)

pub length-copy_at :
    (off : ℕ) (bytes buf : List ℕ)
    → off + length bytes ≤ length buf
    → length (copy_at off bytes buf) ≡ length buf
unfolding copy_at
length-copy_at off bytes buf h = omega (
  arith,
  length-append (take off buf) (bytes ++ drop (off + length bytes) buf),
  length-append bytes (drop (off + length bytes) buf),
  length-take_le off buf (omega arith),
  length-drop (off + length bytes) buf,
)

drop-beyond : (k m : ℕ) (xs ys : List ℕ) → k ≡ length xs + m → drop k (xs ++ ys) ≡ drop m ys
drop-beyond k m [] ys h = ap (λ n. drop n ys) {x = k} {y = m} (omega (arith, h))
drop-beyond zero m (x ∷ xs) ys h = absurd (omega (arith, h))
drop-beyond (suc k) m (x ∷ xs) ys h = drop-beyond k m xs ys (omega (arith, h))

drop-drop : (a b m : ℕ) (xs : List ℕ) → b + a ≡ m → drop a (drop b xs) ≡ drop m xs
drop-drop a zero m xs h = ap (λ n. drop n xs) {x = a} {y = m} (omega (arith, h))
drop-drop a (suc b) zero xs h = absurd (omega (arith, h))
drop-drop zero (suc b) (suc m) [] h = refl
drop-drop (suc a) (suc b) (suc m) [] h = refl
drop-drop a (suc b) (suc m) (x ∷ xs) h = drop-drop a b m xs (omega (arith, h))

-- What is copied stands where it was copied to.
pub take-copy_at :
    (off : ℕ) (bytes buf : List ℕ)
    → off + length bytes ≤ length buf
    → take (length bytes) (drop off (copy_at off bytes buf)) ≡ bytes
unfolding copy_at
take-copy_at off bytes buf h =
    let rest = drop (off + length bytes) buf in
    ap (take (length bytes))
      (drop-append off (take off buf) (bytes ++ rest) (length-take_le off buf (omega arith)))
    ∙ take-append (length bytes) bytes rest refl

-- Nothing else changes.
pub take-copy_at_apart :
    (n k off : ℕ) (bytes buf : List ℕ)
    → off + length bytes ≤ length buf
    → (k + n ≤ off) ⊎ (off + length bytes ≤ k)
    → take n (drop k (copy_at off bytes buf)) ≡ take n (drop k buf)
unfolding copy_at
take-copy_at_apart n k off bytes buf h (inl before) =
    take-drop_front n k off buf (bytes ++ drop (off + length bytes) buf) before (omega arith)
take-copy_at_apart n k off bytes buf h (inr behind) =
    let rest = drop (off + length bytes) buf in
    let front : length (take off buf ++ bytes) ≡ off + length bytes =
      length-append (take off buf) bytes
      ∙ ap (λ m. m + length bytes) (length-take_le off buf (omega arith)) in
    ap (λ t. take n (drop k t)) (sym (append_assoc (take off buf) bytes rest))
    ∙ ap (take n) (
        drop-beyond k (k - (off + length bytes)) (take off buf ++ bytes) rest
          (omega (arith, front, behind))
        ∙ drop-drop (k - (off + length bytes)) (off + length bytes) k buf (omega (arith, behind)))

-- A sequence of copies, the first one first.
abbrev pub apply : List (ℕ × List ℕ) → List ℕ → List ℕ
apply [] buf = buf
apply (w ∷ ws) buf = apply ws (copy_at w.0 w.1 buf)

-- A copy of so many bytes of a page of `size` that leaves the range at `k` alone.
abbrev pub Apart : ℕ → ℕ → ℕ → ℕ × List ℕ → Type 0
Apart size n k w = (w.0 + length w.1 ≤ size) × ((k + n ≤ w.0) ⊎ (w.0 + length w.1 ≤ k))

pub length-apply :
    (size : ℕ) (ws : List (ℕ × List ℕ)) (buf : List ℕ)
    → All (λ w. w.0 + length w.1 ≤ size) ws
    → length buf ≡ size
    → length (apply ws buf) ≡ size
length-apply size [] buf h e = e
length-apply size (w ∷ ws) buf h e =
    length-apply size ws (copy_at w.0 w.1 buf) h.1
      (length-copy_at w.0 w.1 buf (omega (arith, h.0, e)) ∙ e)

pub take-apply :
    (size n k : ℕ) (ws : List (ℕ × List ℕ)) (buf : List ℕ)
    → All (Apart size n k) ws
    → length buf ≡ size
    → take n (drop k (apply ws buf)) ≡ take n (drop k buf)
take-apply size n k [] buf h e = refl
take-apply size n k (w ∷ ws) buf h e =
    take-apply size n k ws (copy_at w.0 w.1 buf) h.1
      (length-copy_at w.0 w.1 buf (omega (arith, h.0.0, e)) ∙ e)
    ∙ take-copy_at_apart n k w.0 w.1 buf (omega (arith, h.0.0, e)) h.0.1

-- A copy that the later ones leave alone is read back.
pub take-apply_hit :
    (size : ℕ) (w : ℕ × List ℕ) (ws : List (ℕ × List ℕ)) (buf : List ℕ)
    → w.0 + length w.1 ≤ size
    → All (Apart size (length w.1) w.0) ws
    → length buf ≡ size
    → take (length w.1) (drop w.0 (apply (w ∷ ws) buf)) ≡ w.1
take-apply_hit size w ws buf room h e =
    let fits : w.0 + length w.1 ≤ length buf = omega (arith, room, e) in
    take-apply size (length w.1) w.0 ws (copy_at w.0 w.1 buf) h
      (length-copy_at w.0 w.1 buf fits ∙ e)
    ∙ take-copy_at w.0 w.1 buf fits
