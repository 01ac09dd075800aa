-- ===== src/Prelude/Results.antt =====
-- Rust's `Result`, and decoders that advance a byte cursor (`bytes: &mut &[u8]`).
use mathlib.Core.Path.{◌≡◌, refl}
use mathlib.Core.Logic.{◌⊎◌, inl, inr}

pub data Result {ℓ} (E A : Type ℓ) : Type ℓ where
  ok : A → Result E A
  err : E → Result E A

module _ {ℓ} {E A B : Type ℓ} where
  abbrev pub and_then : Result E A → (A → Result E B) → Result E B
  and_then (ok a) f = f a
  and_then (err e) f = err e

-- What is read comes with the bytes that are left.
abbrev pub Decoder {ℓ} : Type ℓ → Type ℓ → Type ℓ → Type ℓ
Decoder E W A = W → Result E (A × W)

module _ {ℓ} {E W A B : Type ℓ} where
  infixl 5 ◌>>=◌
  abbrev pub ◌>>=◌ : Decoder E W A → (A → Decoder E W B) → Decoder E W B
  ◌>>=◌ m f w = and_then (m w) (λ p. f p.0 p.1)

module _ {ℓ} {E W A : Type ℓ} where
  abbrev pub pure : A → Decoder E W A
  pure a w = ok (a, w)

  abbrev pub fail : E → Decoder E W A
  fail e w = err e

module _ {ℓ} {E A : Type ℓ} where
  pub Result-cases : (r : Result E A) → ((a : A) × (r ≡ ok a)) ⊎ ((e : E) × (r ≡ err e))
  Result-cases (ok a) = inl (a, refl)
  Result-cases (err e) = inr (e, refl)

  pub and_then_assoc :
      {B C : Type ℓ} (r : Result E A) (f : A → Result E B) (g : B → Result E C)
      → and_then (and_then r f) g ≡ and_then r (λ a. and_then (f a) g)
  and_then_assoc (ok a) f g = refl
  and_then_assoc (err e) f g = refl

  pub and_then-cong :
      {B : Type ℓ} (r : Result E A) (f g : A → Result E B)
      → ((a : A) → f a ≡ g a)
      → and_then r f ≡ and_then r g
  and_then-cong (ok a) f g h = h a
  and_then-cong (err e) f g h = refl
