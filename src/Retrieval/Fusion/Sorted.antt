-- ===== src/Retrieval/Fusion/Sorted.antt =====
-- Sorting keeps the chunks and their ids.
use enterprise_rag_engine.Prelude.{
  String, ◌≡◌, refl, ap, ◌∙◌, false, ◌||◌, List, [], ◌∷◌, map, arith, ◌==◌, string_eq, beq_sym,
  contains, Bool-cases, inl, inr, All,
}
use enterprise_rag_engine.Schemas.{EnrichedChunk, ScoredChunk}
use enterprise_rag_engine.Schemas.Roles.{IsDistinct}
use enterprise_rag_engine.Retrieval.Fusion.{Arithmetic, cid_of, place, sort_by_score}

module _ (math : Arithmetic) (P : EnrichedChunk → Type 0) where
  pub place-All :
      (x : ScoredChunk) (ys : List ScoredChunk)
      → P x.chunk
      → All (λ sc. P sc.chunk) ys
      → All (λ sc. P sc.chunk) (place math x ys)
  unfolding place
  place-All x [] holds h = (holds, tt)
  place-All x (y ∷ ys) holds (first, h) = elim (Bool-cases (math.gt y.score x.score)) [
    | inl above ↦ rw above (first, place-All x ys holds h)
    | inr below ↦ rw below (holds, (first, h))
  ]

  pub sort_by_score-All :
      (xs : List ScoredChunk)
      → All (λ sc. P sc.chunk) xs
      → All (λ sc. P sc.chunk) (sort_by_score math xs)
  unfolding sort_by_score
  sort_by_score-All [] h = tt
  sort_by_score-All (x ∷ xs) (first, h) = place-All x _ first (sort_by_score-All xs h)

pub contains-place :
    (math : Arithmetic) (id : String) (x : ScoredChunk) (ys : List ScoredChunk)
    → contains id (map cid_of (place math x ys)) ≡ (id == cid_of x || contains id (map cid_of ys))
unfolding place contains
contains-place math id x [] = refl
contains-place math id x (y ∷ ys) = ground (arith, contains-place math id x ys)

pub place-IsDistinct :
    (math : Arithmetic) (x : ScoredChunk) (ys : List ScoredChunk)
    → contains (cid_of x) (map cid_of ys) ≡ false
    → IsDistinct (map cid_of ys)
    → IsDistinct (map cid_of (place math x ys))
unfolding place contains
place-IsDistinct math x [] new h = (refl, tt)
place-IsDistinct math x (y ∷ ys) new (first, h) = elim (Bool-cases (math.gt y.score x.score)) [
  | inr below ↦ rw below (new, (first, h))
  | inl above ↦ rw above (
    contains-place math (cid_of y) x ys ∙ ground (arith, new, first, beq_sym (cid_of x) (cid_of y)),
    place-IsDistinct math x ys (ground (arith, new)) h,
  )
]

pub sort_by_score_lem :
    (math : Arithmetic) (xs : List ScoredChunk)
    → ((id : String)
        → contains id (map cid_of (sort_by_score math xs)) ≡ contains id (map cid_of xs))
      × (IsDistinct (map cid_of xs) → IsDistinct (map cid_of (sort_by_score math xs)))
unfolding sort_by_score contains
sort_by_score_lem math [] = (λ id. refl, λ h. tt)
sort_by_score_lem math (x ∷ xs) =
    let (same, distinct) = sort_by_score_lem math xs in
    (
      λ id. contains-place math id x _ ∙ ap (λ b. id == cid_of x || b) (same id),
      λ h. place-IsDistinct math x _ (same (cid_of x) ∙ h.0) (distinct h.1),
    )
