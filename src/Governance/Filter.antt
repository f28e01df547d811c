-- ===== src/Governance/Filter.antt =====
-- src/rag_engine/governance/filter.py: the permission-aware post-filter.
pub mod Spec
pub mod Conceals
pub mod Twice
use enterprise_rag_engine.Prelude.{Bool, true, false, List, [], ◌∷◌, if◌then◌else◌}
use enterprise_rag_engine.Schemas.{ScoredChunk, Session, Decision, GovernanceDecision}
use enterprise_rag_engine.Governance.Access.{evaluate}
use enterprise_rag_engine.Governance.Masking.{redact_chunk}

-- `decision.decision == "deny"`
unfoldable pub is_deny : Decision → Bool
is_deny Decision.deny = true
is_deny _ = false

-- `decision.decision == "allow"`
unfoldable pub is_allow : Decision → Bool
is_allow Decision.allow = true
is_allow _ = false

-- `SecurityFilter.apply`: the admitted chunks and the trail.
unfoldable pub apply : List ScoredChunk → Session → List ScoredChunk × List GovernanceDecision
unfolding is_deny
apply [] session = ([], [])
apply (sc ∷ rest) session =
    let decision = evaluate sc.chunk session in
    let (admitted, trail) = apply rest session in
    (
      if is_deny decision.decision then admitted else redact_chunk sc decision ∷ admitted,
      decision ∷ trail,
    )
