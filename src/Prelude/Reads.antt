-- ===== src/Prelude/Reads.antt =====
-- What a decoder does on the output of its encoder: one rule for each way to build a decoder.
use Prim.Native.Nat.{ℕ, zero, suc, ◌+◌, ◌≤◌}
use native.Mathlib.Omega.{arith}
use mathlib.Core.Path.{◌≡◌, refl}
use mathlib.Core.List.{List, [], ◌∷◌, ◌++◌, append_assoc}
use strata_db.Prelude.Results.{Result, ok, err, and_then, Decoder, ◌>>=◌, pure, fail}
use strata_db.Prelude.Lists.{length, All}

-- `d` reads `a` off the front of any input that starts with `bytes`, and leaves the rest.
pub record Reads {E A : Type 0} (d : Decoder E (List ℕ) A) (bytes : List ℕ) (a : A) : Type 0 where
  pub at : (rest : List ℕ) → d (bytes ++ rest) ≡ ok (a, rest)

module _ {E A : Type 0} where
  pub Reads-pure : (a : A) → Reads {E = E} (pure a) [] a
  Reads-pure a = record { at = λ rest. refl }

module _ {E A B : Type 0} where
  pub Reads-bind :
      (d : Decoder E (List ℕ) A) (f : A → Decoder E (List ℕ) B) {xs ys : List ℕ} {a : A} {b : B}
      → Reads d xs a
      → Reads (f a) ys b
      → Reads (d >>= f) (xs ++ ys) b
  Reads-bind d f {xs} {ys} {a} {b} hd hf = record {
    at = λ rest. rw (append_assoc xs ys rest, hd.at (ys ++ rest), ◌>>=◌) (hf.at rest);
  }

  -- A decoder with one more step after the last byte.
  pub Reads-map :
      (d : Decoder E (List ℕ) A) (g : A → B) {xs : List ℕ} {a : A}
      → Reads d xs a
      → Reads (d >>= λ x. pure (g x)) xs (g a)
  Reads-map d g hd = record { at = λ rest. rw (hd.at rest, ◌>>=◌) }

abbrev pub concat_map {ℓ} : {A : Type ℓ} → (A → List ℕ) → List A → List ℕ
concat_map encode [] = []
concat_map encode (x ∷ xs) = encode x ++ concat_map encode xs

-- `for _ in 0..count { xs.push(d(bytes)?) }`
module _ {E A : Type 0} where
  unfoldable pub repeat : ℕ → Decoder E (List ℕ) A → Decoder E (List ℕ) (List A)
  repeat zero d = pure []
  repeat (suc n) d = do x ← d; xs ← repeat n d; pure (x ∷ xs)

  pub repeat-Reads :
      (d : Decoder E (List ℕ) A) (encode : A → List ℕ) (P : A → Type 0)
      → ((x : A) → P x → Reads d (encode x) x)
      → (xs : List A) → All P xs
      → Reads (repeat (length xs) d) (concat_map encode xs) xs
  unfolding repeat
  repeat-Reads d encode P each [] all = Reads-pure []
  repeat-Reads d encode P each (x ∷ xs) all =
      Reads-bind d (λ y. repeat (length xs) d >>= λ ys. pure (y ∷ ys)) (each x all.0)
        (Reads-map (repeat (length xs) d) (λ ys. x ∷ ys) (repeat-Reads d encode P each xs all.1))

-- A decoder that takes `n` bytes at least when it succeeds.
pub record Consumes {E A : Type 0} (n : ℕ) (d : Decoder E (List ℕ) A) : Type 0 where
  pub at : (w : List ℕ) (a : A) (rest : List ℕ) → d w ≡ ok (a, rest) → length rest + n ≤ length w

module _ {E A : Type 0} where
  pub Consumes-pure : (a : A) → Consumes {E = E} 0 (pure a)
  Consumes-pure a = record { at = λ w b rest h. ground arith }

  pub Consumes-fail : (e : E) (n : ℕ) → Consumes {A = A} n (fail e)
  Consumes-fail e n = record { at = λ w b rest h. cc }

  pub Consumes-weaken : (d : Decoder E (List ℕ) A) (m n : ℕ) → n ≤ m → Consumes m d → Consumes n d
  Consumes-weaken d m n h c = record { at = λ w b rest k. omega (arith, c.at w b rest k) }

module _ {E A B : Type 0} where
  pub Consumes-bind :
      (d : Decoder E (List ℕ) A) (f : A → Decoder E (List ℕ) B) (m n : ℕ)
      → Consumes m d
      → ((a : A) → Consumes n (f a))
      → Consumes (m + n) (d >>= f)
  Consumes-bind d f m n hd hf = record { at = λ w b rest h. go w b rest (d w) refl h }
    where
      go :
          (w : List ℕ) (b : B) (rest : List ℕ) (r : Result E (A × List ℕ))
          → d w ≡ r
          → and_then r (λ p. f p.0 p.1) ≡ ok (b, rest)
          → length rest + (m + n) ≤ length w
      go w b rest (ok (a, w')) e h = omega (arith, hd.at w a w' e, (hf a).at w' b rest h)
      go w b rest (err x) e h = cc
