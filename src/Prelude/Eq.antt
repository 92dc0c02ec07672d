-- ===== src/Prelude/Eq.antt =====
-- Decidable equality as an interface: Python's `==` on keys, texts and tags.
use Prim.Native.Nat.{ℕ}
use mathlib.Core.Path.{◌≡◌, refl}
use mathlib.Core.Logic.{◌↔◌}
use mathlib.Core.Bool.{Bool, true, false, ◌&&◌}
use mathlib.Core.List.{List, [], ◌∷◌}
use native.Mathlib.Omega.{arith}
use koraku.Prelude.Tests.{nat_beq, nat_beq_iff, Bool-cases}
use koraku.Prelude.Lists.{all}
use mathlib.Core.Path.{subst}
use mathlib.Core.Logic.{inl, inr}

pub record Equality {ℓ} (A : Type ℓ) : Type ℓ where
  pub equal : A → A → Bool
  pub equal_iff : (a b : A) → (equal a b ≡ true) ↔ (a ≡ b)

abbrev pub codes_beq : List ℕ → List ℕ → Bool
codes_beq [] [] = true
codes_beq (a ∷ s) (b ∷ t) = nat_beq a b && codes_beq s t
codes_beq _ _ = false

pub codes_beq_iff : (s t : List ℕ) → (codes_beq s t ≡ true) ↔ (s ≡ t)
codes_beq_iff [] [] = ground arith
codes_beq_iff [] (b ∷ t) = ground arith
codes_beq_iff (a ∷ s) [] = ground arith
codes_beq_iff (a ∷ s) (b ∷ t) = ground (arith, codes_beq_iff s t)

instance abbrev pub text_equality : Equality (List ℕ)
text_equality = record { equal = codes_beq; equal_iff = codes_beq_iff }

instance abbrev pub nat_equality : Equality ℕ
nat_equality = record { equal = nat_beq; equal_iff = nat_beq_iff }

module _ {ℓ} {A : Type ℓ} ⦃e : Equality A⦄ where
  infix 50 ◌==◌
  abbrev pub ◌==◌ : A → A → Bool
  ◌==◌ = e.equal

  pub ==_refl : (a : A) → (a == a) ≡ true
  ==_refl a = (e.equal_iff a a).1 refl

  pub ==_sym-false : (a b : A) → (a == b) ≡ false → (b == a) ≡ false
  ==_sym-false a b h = ground (arith, e.equal_iff a b, e.equal_iff b a)

  -- x in xs
  abbrev pub contains : List A → A → Bool
  contains [] a = false
  contains (x ∷ xs) a = let rest = contains xs a in elim (x == a) [ true ↦ true | false ↦ rest ]

  -- What holds of every element holds of one that is in the list.
  pub all-contains :
      (p : A → Bool) (xs : List A) (a : A) → all p xs ≡ true → contains xs a ≡ true → p a ≡ true
  all-contains p [] a h c = absurd (ground arith)
  all-contains p (x ∷ xs) a h c = elim (Bool-cases (x == a)) [
    | inl same ↦ subst (λ y. p y ≡ true) ((e.equal_iff x a).0 same) (ground arith)
    | inr other ↦ all-contains p xs a (ground arith) (ground arith)
  ]
