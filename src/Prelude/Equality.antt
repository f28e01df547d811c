-- ===== src/Prelude/Equality.antt =====
-- Decidable equality as an interface, and membership tests on lists (Python's `in`, `isdisjoint`).
use Prim.Native.Nat.{ℕ}
use Prim.Native.String.{String}
use mathlib.Core.Path.{◌≡◌, refl}
use mathlib.Core.Logic.{◌↔◌, inl, inr}
use mathlib.Core.Bool.{Bool, true, false, ◌||◌}
use mathlib.Core.List.{List, [], ◌∷◌, ◌++◌}
use native.Mathlib.Omega.{arith}
use text.Mathlib.Text.{◌==◌ as str_eq}
use text.Mathlib.TextEquality.{eq_iff}
use enterprise_rag_engine.Prelude.Lists.{is_empty}
use enterprise_rag_engine.Prelude.Tests.{nat_beq, nat_beq_iff, Bool-cases}

pub record Eq {ℓ} (A : Type ℓ) : Type ℓ where
  pub beq : A → A → Bool
  pub beq_iff : (a b : A) → (beq a b ≡ true) ↔ (a ≡ b)

-- Texts compare by their characters.
instance abbrev pub string_eq : Eq String
string_eq = record { beq = str_eq; beq_iff = eq_iff }

instance abbrev pub nat_eq : Eq ℕ
nat_eq = record { beq = nat_beq; beq_iff = nat_beq_iff }

infix 50 ◌==◌
abbrev pub ◌==◌ {κ} : {A : Type κ} ⦃eq : Eq A⦄ → A → A → Bool
◌==◌ ⦃eq⦄ = eq.beq

or_true : (a b : Bool) → b ≡ true → (a || b) ≡ true
or_true a b h = ground arith

module _ {ℓ} {A : Type ℓ} ⦃e : Eq A⦄ where
  pub beq_refl : (a : A) → (a == a) ≡ true
  beq_refl a = (e.beq_iff a a).1 refl

  pub beq_sym : (a b : A) → (a == b) ≡ (b == a)
  beq_sym a b = ground (arith, e.beq_iff a b, e.beq_iff b a)

  -- `a in xs`
  unfoldable pub contains : A → List A → Bool
  contains a [] = false
  contains a (x ∷ xs) = a == x || contains a xs

  -- `not set(xs).isdisjoint(ys)`: some element of `xs` is in `ys`.
  unfoldable pub intersects : List A → List A → Bool
  intersects [] ys = false
  intersects (x ∷ xs) ys = contains x ys || intersects xs ys

  pub contains-append :
      (a : A) (xs ys : List A) → contains a (xs ++ ys) ≡ (contains a xs || contains a ys)
  unfolding contains
  contains-append a [] ys = refl
  contains-append a (x ∷ xs) ys = ground (arith, contains-append a xs ys)

  pub intersects-contains :
      (a : A) (xs ys : List A)
      → contains a xs ≡ true
      → contains a ys ≡ true
      → intersects xs ys ≡ true
  unfolding contains intersects
  intersects-contains a [] ys h k = h
  intersects-contains a (x ∷ xs) ys h k = ground (arith, e.beq_iff a x, intersects-contains a xs ys)

  -- The intersection depends on the two sets alone.
  pub contains-subset-intersects :
      (xs ys zs : List A)
      → ((a : A) → contains a ys ≡ true → contains a zs ≡ true)
      → intersects xs ys ≡ true
      → intersects xs zs ≡ true
  unfolding intersects
  contains-subset-intersects [] ys zs sub h = h
  contains-subset-intersects (x ∷ xs) ys zs sub h =
      ground (arith, sub x, contains-subset-intersects xs ys zs sub)

  pub intersects_mono :
      (xs zs ys : List A)
      → ((a : A) → contains a xs ≡ true → contains a zs ≡ true)
      → intersects xs ys ≡ true
      → intersects zs ys ≡ true
  unfolding intersects contains
  intersects_mono [] zs ys sub h = cc
  intersects_mono (x ∷ xs) zs ys sub h = elim (Bool-cases (contains x ys)) [
    | inl hit ↦ intersects-contains x zs ys (sub x (rw (beq_refl x))) hit
    | inr miss ↦
        intersects_mono xs zs ys (λ a m. sub a (or_true (a == x) (contains a xs) m)) (ground arith)
  ]

  pub intersects-nonempty : (xs ys : List A) → intersects xs ys ≡ true → is_empty ys ≡ false
  unfolding intersects contains
  intersects-nonempty [] ys h = cc
  intersects-nonempty (x ∷ xs) [] h = intersects-nonempty xs [] h
  intersects-nonempty (x ∷ xs) (y ∷ ys) h = refl
