-- ===== src/Governance/Access/Gates.antt =====
-- The decision of `evaluate` as a table over the Booleans that its branches test, which the
-- proofs about decisions work from.
use enterprise_rag_engine.Prelude.{
  ℕ, ◌≡◌, refl, Bool, true, false, not, ◌&&◌, ◌==◌, string_eq, leb, ltb, if◌then◌else◌, is_empty,
  contains, intersects, is_nil,
}
use enterprise_rag_engine.Schemas.{EnrichedChunk, Session, Decision, GovernanceDecision, is_public}
use enterprise_rag_engine.Governance.Access.{
  evaluate, evaluate_pii, evaluate_gates, partial_roles, valid_classes, pii_class,
}

module _ (c : EnrichedChunk) (s : Session) where
  abbrev pub is_unknown : Bool
  is_unknown =
      not (is_nil c.security.sensitivity_class)
      && not (contains c.security.sensitivity_class valid_classes)

  abbrev pub is_low : Bool
  is_low = ltb s.clearance_level c.security.clearance_level

  abbrev pub lacks_need : Bool
  lacks_need =
      not (is_empty c.security.need_to_know_roles)
      && not (intersects s.roles c.security.need_to_know_roles)

  abbrev pub has_scope : Bool
  has_scope =
      not (is_empty (partial_roles c.metadata)) && intersects s.roles (partial_roles c.metadata)

  abbrev pub lacks_role : Bool
  lacks_role =
      is_nil c.security.sensitivity_class && not (intersects s.roles c.security.allowed_roles)

abbrev pub pii_verdict : ℕ → Decision
pii_verdict level =
    if leb 4 level then Decision.allow else if leb 2 level then Decision.mask else Decision.deny

abbrev pub gates_verdict : Bool → Bool → Bool → Bool → Decision
gates_verdict low need scope role =
    if low
    then Decision.deny
    else if need
    then (if scope then Decision.partial else Decision.deny)
    else if role
    then Decision.deny
    else Decision.allow

abbrev pub verdict : Bool → Bool → Bool → Decision → Decision → Decision
verdict public unknown pii d e =
    if public then Decision.allow else if unknown then Decision.deny else if pii then d else e

decision-if :
    (b : Bool) (x y : GovernanceDecision)
    → (if b then x else y).decision ≡ (if b then x.decision else y.decision)
decision-if true x y = refl
decision-if false x y = refl

decision-evaluate_pii :
    (c : EnrichedChunk) (s : Session) → (evaluate_pii c s).decision ≡ pii_verdict s.clearance_level
unfolding evaluate_pii
decision-evaluate_pii c s = simp decision-if

decision-evaluate_gates :
    (c : EnrichedChunk) (s : Session)
    → (evaluate_gates c s).decision
      ≡ gates_verdict (is_low c s) (lacks_need c s) (has_scope c s) (lacks_role c s)
unfolding evaluate_gates
decision-evaluate_gates c s = simp decision-if

abbrev pub decide : EnrichedChunk → Session → Decision
decide c s =
    verdict (is_public c.security) (is_unknown c s) (c.security.sensitivity_class == pii_class)
      (pii_verdict s.clearance_level)
      (gates_verdict (is_low c s) (lacks_need c s) (has_scope c s) (lacks_role c s))

pub decision-evaluate : (c : EnrichedChunk) (s : Session) → (evaluate c s).decision ≡ decide c s
unfolding evaluate
decision-evaluate c s = simp (decision-if, decision-evaluate_pii, decision-evaluate_gates)
