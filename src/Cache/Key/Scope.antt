-- ===== src/Cache/Key/Scope.antt =====
-- Sessions with one scope are governed alike.
use enterprise_rag_engine.Prelude.{
  String, ◌≡◌, refl, sym, ap, ◌∙◌, Bool, true, ◌||◌, List, [], ◌∷◌, ◌==◌, string_eq, contains,
  intersects, intersects_mono, arith,
}
use Prim.Native.Nat.{Ordering}
use Prim.Native.String.{compare}
use text.Mathlib.TextEquality.{path_by_compare}
use enterprise_rag_engine.Prelude.Sets.{insert_sorted, sorted_set}
use enterprise_rag_engine.Schemas.{EnrichedChunk, Session}
use enterprise_rag_engine.Governance.Access.{evaluate, partial_roles}
use enterprise_rag_engine.Governance.Access.Gates.{decision-evaluate, decide}
use enterprise_rag_engine.Cache.Key.{from_session}

contains-insert_sorted :
    (a x : String) (ys : List String) → contains a (insert_sorted x ys) ≡ (a == x || contains a ys)
unfolding contains insert_sorted
contains-insert_sorted a x [] = refl
contains-insert_sorted a x (y ∷ ys) = go (contains-insert_sorted a x ys) (compare x y) refl
  where
    go :
        contains a (insert_sorted x ys) ≡ (a == x || contains a ys)
        → (o : Ordering) → compare x y ≡ o
        → contains a (insert_sorted x (y ∷ ys)) ≡ (a == x || (a == y || contains a ys))
    go rest Ordering.lt e = rw (insert_sorted, e)
    go rest Ordering.eq e =
        let same = path_by_compare x y e in rw (insert_sorted, e) (rw same (ground arith))
    go rest Ordering.gt e = rw (insert_sorted, e) (ground (arith, rest))

contains-sorted_set : (a : String) (xs : List String) → contains a (sorted_set xs) ≡ contains a xs
unfolding contains sorted_set
contains-sorted_set a [] = refl
contains-sorted_set a (x ∷ xs) =
    contains-insert_sorted a x (sorted_set xs) ∙ ap (λ b. a == x || b) (contains-sorted_set a xs)

same_bool : (a b : Bool) → (a ≡ true → b ≡ true) → (b ≡ true → a ≡ true) → a ≡ b
same_bool a b f g = ground (arith, f, g)

intersects-from_session :
    (s t : Session) (ys : List String)
    → from_session s ≡ from_session t
    → intersects s.roles ys ≡ intersects t.roles ys
unfolding from_session
intersects-from_session s t ys e =
    same_bool (intersects s.roles ys) (intersects t.roles ys)
      (intersects_mono s.roles t.roles ys (λ a h. sym (same a) ∙ h))
      (intersects_mono t.roles s.roles ys (λ a h. same a ∙ h))
  where
    same : (a : String) → contains a s.roles ≡ contains a t.roles
    same a =
        sym (contains-sorted_set a s.roles)
        ∙ ap (λ k. contains a k.roles) e
        ∙ contains-sorted_set a t.roles

-- Two sessions with the same scope get the same decision on every chunk: what `evaluate` consults
-- is in the key of the cache.
pub evaluate-from_session :
    (c : EnrichedChunk) (s t : Session)
    → from_session s ≡ from_session t
    → (evaluate c s).decision ≡ (evaluate c t).decision
unfolding from_session
evaluate-from_session c s t e = decision-evaluate c s ∙ alike ∙ sym (decision-evaluate c t)
  where
    level : s.clearance_level ≡ t.clearance_level
    level = ap (λ k. k.clearance_level) e

    alike : decide c s ≡ decide c t
    alike = rw (
      level,
      intersects-from_session s t c.security.need_to_know_roles e,
      intersects-from_session s t c.security.allowed_roles e,
      intersects-from_session s t (partial_roles c.metadata) e,
    )
