-- ===== src/Prelude/DistinctKeys.antt =====
-- Dictionaries in which no key occurs twice: a Python `dict`, which every operation keeps so.
use Prim.Native.String.{String}
use mathlib.Core.Path.{◌≡◌, refl, sym, ap, ◌∙◌}
use mathlib.Core.Logic.{inl, inr}
use mathlib.Core.Bool.{Bool, false}
use mathlib.Core.List.{[], ◌∷◌, ◌++◌}
use mathlib.Core.Option.{Option, none, some}
use native.Mathlib.Omega.{arith}
use enterprise_rag_engine.Prelude.Tests.{if◌then◌else◌, Bool-cases}
use enterprise_rag_engine.Prelude.Lists.{keep, All}
use enterprise_rag_engine.Prelude.Equality.{◌==◌, string_eq, beq_refl, beq_sym}
use enterprise_rag_engine.Prelude.Dict.{Dict, lookup, insert, erase, lookup-insert, lookup-erase}

module _ {V : Type 0} where
  -- No key occurs twice.
  abbrev pub HasDistinctKeys : Dict String V → Type 0
  HasDistinctKeys [] = Unit
  HasDistinctKeys ((k, v) ∷ d) = (lookup k d ≡ none) × HasDistinctKeys d

  lookup-keep :
      (f : String × V → Bool) (k : String) (d : Dict String V)
      → lookup k d ≡ none
      → lookup k (keep f d) ≡ none
  unfolding lookup keep
  lookup-keep f k [] h = refl
  lookup-keep f k ((j, v) ∷ d) h = ground (arith, h, lookup-keep f k d)

  -- The value of a key, unless it is dropped
  abbrev pub unless_dropped : (V → Bool) → Option V → Option V
  unless_dropped f none = none
  unless_dropped f (some v) = if f v then some v else none

  pub lookup-keep_lem :
      (f : V → Bool) (k : String) (d : Dict String V)
      → HasDistinctKeys d
      → lookup k (keep (λ x. f x.1) d) ≡ unless_dropped f (lookup k d)
  unfolding keep lookup
  lookup-keep_lem f k [] h = refl
  lookup-keep_lem f k ((j, v) ∷ d) (new, h) = elim (Bool-cases (j == k)) [
    | inl same ↦
        let absent : lookup k d ≡ none =
          ap (λ i. lookup i d) (sym ((string_eq.beq_iff j k).0 same)) ∙ new in
        elim (Bool-cases (f v)) [
          | inl kept ↦ rw (kept, same) (rw kept)
          | inr dropped ↦ rw (dropped, same) (rw dropped (lookup-keep (λ x. f x.1) k d absent))
        ]
    | inr other ↦ elim (Bool-cases (f v)) [
      | inl kept ↦ rw (kept, other) (lookup-keep_lem f k d h)
      | inr dropped ↦ rw (dropped, other) (lookup-keep_lem f k d h)
    ]
  ]

  pub keep-HasDistinctKeys :
      (f : String × V → Bool) (d : Dict String V) → HasDistinctKeys d → HasDistinctKeys (keep f d)
  unfolding keep
  keep-HasDistinctKeys f [] h = tt
  keep-HasDistinctKeys f ((k, v) ∷ d) (new, h) = elim (Bool-cases (f (k, v))) [
    | inl kept ↦ rw kept (lookup-keep f k d new, keep-HasDistinctKeys f d h)
    | inr dropped ↦ rw dropped (keep-HasDistinctKeys f d h)
  ]

  pub insert-HasDistinctKeys :
      (k : String) (v : V) (d : Dict String V) → HasDistinctKeys d → HasDistinctKeys (insert k v d)
  unfolding insert lookup
  insert-HasDistinctKeys k v [] h = (refl, tt)
  insert-HasDistinctKeys k v ((j, w) ∷ d) (new, h) = elim (Bool-cases (j == k)) [
    | inl same ↦ rw same (ap (λ i. lookup i d) (sym ((string_eq.beq_iff j k).0 same)) ∙ new, h)
    | inr other ↦
        rw other
          (lookup-insert k j v d ∙ rw (beq_sym k j, other) new, insert-HasDistinctKeys k v d h)
  ]

  pub erase-HasDistinctKeys :
      (k : String) (d : Dict String V) → HasDistinctKeys d → HasDistinctKeys (erase k d)
  unfolding erase
  erase-HasDistinctKeys k [] h = tt
  erase-HasDistinctKeys k ((j, w) ∷ d) (new, h) = elim (Bool-cases (j == k)) [
    | inl same ↦ rw same (erase-HasDistinctKeys k d h)
    | inr other ↦
        rw other (lookup-erase k j d ∙ rw (beq_sym k j, other) new, erase-HasDistinctKeys k d h)
  ]

  lookup-append :
      (k j : String) (v : V) (d : Dict String V)
      → (k == j) ≡ false
      → lookup j d ≡ none
      → lookup j (d ++ (k, v) ∷ []) ≡ none
  unfolding lookup
  lookup-append k j v [] other h = rw other
  lookup-append k j v ((i, w) ∷ d) other h = ground (arith, other, h, lookup-append k j v d other)

  pub append-HasDistinctKeys :
      (k : String) (v : V) (d : Dict String V)
      → lookup k d ≡ none
      → HasDistinctKeys d
      → HasDistinctKeys (d ++ (k, v) ∷ [])
  unfolding lookup
  append-HasDistinctKeys k v [] absent h = (refl, tt)
  append-HasDistinctKeys k v ((j, w) ∷ d) absent (new, h) = elim (Bool-cases (j == k)) [
    | inl same ↦ ground (arith, absent, same)
    | inr other ↦ (
      lookup-append k j v d (beq_sym k j ∙ other) new,
      append-HasDistinctKeys k v d (rw other at absent) h,
    )
  ]

  -- With distinct keys, looking an entry's key up gives the entry.
  pub HasDistinctKeys-lookup :
      (d : Dict String V) → HasDistinctKeys d → All (λ x. lookup x.0 d ≡ some x.1) d
  unfolding lookup
  HasDistinctKeys-lookup [] h = tt
  HasDistinctKeys-lookup ((k, v) ∷ d) (new, h) =
      (rw (beq_refl k), later d (HasDistinctKeys-lookup d h))
    where
      later :
          (rest : Dict String V)
          → All (λ x. lookup x.0 d ≡ some x.1) rest
          → All (λ x. lookup x.0 ((k, v) ∷ d) ≡ some x.1) rest
      later [] all = tt
      later ((j, w) ∷ rest) (found, all) =
          (ground (arith, found, new, string_eq.beq_iff k j), later rest all)
