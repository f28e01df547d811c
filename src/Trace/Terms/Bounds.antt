-- ===== src/Trace/Terms/Bounds.antt =====
-- The key terms of a question are few, distinct and not short.
use Prim.Native.String.{count}
use enterprise_rag_engine.Prelude.{
  ℕ, zero, suc, ◌≤◌, ◌<◌, String, ◌≡◌, refl, ◌∙◌, false, not, ◌&&◌, List, [], ◌∷◌, ◌++◌, string_eq,
  arith, ltb, contains, contains-append, take, length, length-take-le, All, All-take, All-append,
  Bool-cases, inl, inr, beq_sym,
}
use enterprise_rag_engine.Schemas.Roles.{IsDistinct}
use enterprise_rag_engine.Trace.Terms.{tokens, collect_terms, key_terms}

append-IsDistinct :
    (t : String) (xs : List String)
    → contains t xs ≡ false
    → IsDistinct xs
    → IsDistinct (xs ++ t ∷ [])
unfolding contains
append-IsDistinct t [] new h = (refl, tt)
append-IsDistinct t (x ∷ xs) new (first, h) = (
  contains-append x xs (t ∷ []) ∙ ground (arith, new, first, beq_sym x t),
  append-IsDistinct t xs (ground (arith, new)) h,
)

contains-take :
    (a : String) (n : ℕ) (xs : List String) → contains a xs ≡ false → contains a (take n xs) ≡ false
unfolding contains
contains-take a zero xs h = refl
contains-take a (suc n) [] h = refl
contains-take a (suc n) (x ∷ xs) h = ground (arith, h, contains-take a n xs)

take-IsDistinct : (n : ℕ) (xs : List String) → IsDistinct xs → IsDistinct (take n xs)
take-IsDistinct zero xs h = tt
take-IsDistinct (suc n) [] h = tt
take-IsDistinct (suc n) (x ∷ xs) (first, h) = (contains-take x n xs first, take-IsDistinct n xs h)

-- What the loop keeps true of the terms that it has seen
abbrev AreTerms : List String → Type 0
AreTerms xs = IsDistinct xs × All (λ t. 2 < count t) xs

collect_terms-AreTerms : (seen ts : List String) → AreTerms seen → AreTerms (collect_terms seen ts)
unfolding collect_terms
collect_terms-AreTerms seen [] h = h
collect_terms-AreTerms seen (t ∷ ts) (distinct, long) =
    elim (Bool-cases (ltb 2 (count t) && not (contains t seen))) [
      | inr skipped ↦ rw skipped (collect_terms-AreTerms seen ts (distinct, long))
      | inl fresh ↦ rw fresh (
          collect_terms-AreTerms (seen ++ t ∷ []) ts (
            append-IsDistinct t seen (ground (arith, fresh)) distinct,
            All-append (λ x. 2 < count x) seen (t ∷ []) long (ground (arith, fresh), tt),
          ))
    ]

-- A question has at most twelve key terms; they are distinct, and each has more than two characters.
pub key_terms_lem :
    (question : String)
    → (length (key_terms question) ≤ 12)
      × IsDistinct (key_terms question)
      × All (λ t. 2 < count t) (key_terms question)
unfolding key_terms
key_terms_lem question =
    let (distinct, long) = collect_terms-AreTerms [] (tokens question) (tt, tt) in
    (
      length-take-le 12 (collect_terms [] (tokens question)),
      take-IsDistinct 12 (collect_terms [] (tokens question)) distinct,
      All-take (λ t. 2 < count t) 12 (collect_terms [] (tokens question)) long,
    )
