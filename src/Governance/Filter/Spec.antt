-- ===== src/Governance/Filter/Spec.antt =====
-- The filter admits exactly what is not denied, in order, and records every decision.
use enterprise_rag_engine.Prelude.{
  ◌≡◌, refl, Bool, not, List, [], ◌∷◌, map, arith, keep, Bool-cases, inl, inr,
}
use enterprise_rag_engine.Schemas.{ScoredChunk, Session, GovernanceDecision}
use enterprise_rag_engine.Governance.Access.{evaluate}
use enterprise_rag_engine.Governance.Masking.{redact_chunk}
use enterprise_rag_engine.Governance.Filter.{apply, is_deny}

abbrev pub admits : Session → ScoredChunk → Bool
admits s sc = not (is_deny (evaluate sc.chunk s).decision)

abbrev pub redacted : Session → ScoredChunk → ScoredChunk
redacted s sc = redact_chunk sc (evaluate sc.chunk s)

-- The filter returns the chunks that are not denied, each redacted by its decision and in the
-- order of the candidates, and one decision for each candidate.
pub apply_lem :
    (cs : List ScoredChunk) (s : Session)
    → ((apply cs s).0 ≡ map (redacted s) (keep (admits s) cs))
      × ((apply cs s).1 ≡ map (λ sc. evaluate sc.chunk s) cs)
unfolding apply keep
apply_lem [] s = (refl, refl)
apply_lem (sc ∷ rest) s = elim (Bool-cases (is_deny (evaluate sc.chunk s).decision)) [
  | inl denied ↦ (rw denied (apply_lem rest s).0, rw (apply_lem rest s).1)
  | inr kept ↦ (rw (kept, (apply_lem rest s).0), rw (apply_lem rest s).1)
]

-- A redaction keeps the chunk's id, its security context and its score.
pub redact_chunk_keeps :
    (sc : ScoredChunk) (d : GovernanceDecision)
    → ((redact_chunk sc d).chunk.chunk_id ≡ sc.chunk.chunk_id)
      × ((redact_chunk sc d).chunk.security ≡ sc.chunk.security)
      × ((redact_chunk sc d).score ≡ sc.score)
unfolding redact_chunk
redact_chunk_keeps sc d = ground arith
