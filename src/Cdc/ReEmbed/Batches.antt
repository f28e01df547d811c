-- ===== src/Cdc/ReEmbed/Batches.antt =====
-- Lists whose elements have distinct keys, cut into a batch and the rest.
use enterprise_rag_engine.Prelude.{
  ℕ, zero, suc, ◌+◌, ◌≤◌, String, ◌≡◌, refl, ap, ◌∙◌, Bool, false, not, ◌&&◌, List, [], ◌∷◌, map,
  string_eq, ◌==◌, arith, contains, take, length, keep, Bool-cases, inl, inr, beq_refl, beq_sym,
}

-- No text occurs twice.
abbrev pub IsDistinct : List String → Type 0
IsDistinct [] = Unit
IsDistinct (x ∷ xs) = (contains x xs ≡ false) × IsDistinct xs

abbrev pub drop {ℓ} : {A : Type ℓ} → ℕ → List A → List A
drop zero xs = xs
drop (suc n) [] = []
drop (suc n) (x ∷ xs) = drop n xs

pub length-take-drop {ℓ} :
    {A : Type ℓ} (n : ℕ) (xs : List A) → length (take n xs) + length (drop n xs) ≡ length xs
length-take-drop zero xs = omega arith
length-take-drop (suc n) [] = omega arith
length-take-drop (suc n) (x ∷ xs) = omega (arith, length-take-drop n xs)

pub take-all {ℓ} :
    {A : Type ℓ} (n : ℕ) (xs : List A) → length xs ≤ n → (take n xs ≡ xs) × (drop n xs ≡ [])
take-all zero [] h = (refl, refl)
take-all zero (x ∷ xs) h = absurd (omega arith)
take-all (suc n) [] h = (refl, refl)
take-all (suc n) (x ∷ xs) h =
    (ap (λ l. x ∷ l) (take-all n xs (omega arith)).0, (take-all n xs (omega arith)).1)

module _ {A : Type 0} (key : A → String) where
  -- Not one of the keys of a batch
  abbrev pub outside : List A → A → Bool
  outside batch x = not (contains (key x) (map key batch))

  pub contains-take :
      (k : String) (n : ℕ) (xs : List A)
      → contains k (map key xs) ≡ false
      → contains k (map key (take n xs)) ≡ false
  unfolding contains
  contains-take k zero xs h = refl
  contains-take k (suc n) [] h = refl
  contains-take k (suc n) (x ∷ xs) h = ground (arith, h, contains-take k n xs)

  pub take-IsDistinct :
      (n : ℕ) (xs : List A) → IsDistinct (map key xs) → IsDistinct (map key (take n xs))
  take-IsDistinct zero xs h = tt
  take-IsDistinct (suc n) [] h = tt
  take-IsDistinct (suc n) (x ∷ xs) (new, h) =
      (contains-take (key x) n xs new, take-IsDistinct n xs h)

  pub keep-keep_lem :
      (p q : A → Bool) (xs : List A) → keep p (keep q xs) ≡ keep (λ x. q x && p x) xs
  unfolding keep
  keep-keep_lem p q [] = refl
  keep-keep_lem p q (x ∷ xs) = elim (Bool-cases (q x)) [
    | inl h ↦ rw (h, keep-keep_lem p q xs)
    | inr h ↦ rw (h, keep-keep_lem p q xs)
  ]

  -- Keeping what is outside of a batch, one key after the other
  pub keep-outside-cons :
      (x : A) (batch xs : List A)
      → keep (outside batch) (keep (λ y. not (key y == key x)) xs) ≡ keep (outside (x ∷ batch)) xs
  unfolding keep contains
  keep-outside-cons x batch [] = refl
  keep-outside-cons x batch (y ∷ xs) = ground (arith, keep-outside-cons x batch xs)

  pub keep-outside-nil : (xs : List A) → keep (outside []) xs ≡ xs
  unfolding keep contains
  keep-outside-nil [] = refl
  keep-outside-nil (x ∷ xs) = ap (λ l. x ∷ l) (keep-outside-nil xs)

  keep-other :
      (x : A) (batch xs : List A)
      → contains (key x) (map key xs) ≡ false
      → keep (outside (x ∷ batch)) xs ≡ keep (outside batch) xs
  unfolding keep contains
  keep-other x batch [] h = refl
  keep-other x batch (y ∷ xs) h = ground (arith, h, beq_sym (key y) (key x), keep-other x batch xs)

  -- Dropping a batch by its keys leaves the rest.
  pub keep-outside-take :
      (n : ℕ) (xs : List A) → IsDistinct (map key xs) → keep (outside (take n xs)) xs ≡ drop n xs
  keep-outside-take zero xs h = keep-outside-nil xs
  keep-outside-take (suc n) [] h = unfold keep in refl
  keep-outside-take (suc n) (x ∷ xs) (new, h) =
      first ∙ keep-other x (take n xs) xs new ∙ keep-outside-take n xs h
    where
      first : keep (outside (x ∷ take n xs)) (x ∷ xs) ≡ keep (outside (x ∷ take n xs)) xs
      first = unfold keep contains in rw (beq_refl (key x))
