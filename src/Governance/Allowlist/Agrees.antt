-- ===== src/Governance/Allowlist/Agrees.antt =====
-- The pre-filter and the post-filter agree.
use enterprise_rag_engine.Prelude.{◌≡◌, refl, List, [], ◌∷◌, map, none, Bool-cases, inl, inr}
use enterprise_rag_engine.Schemas.{ScoredChunk, Session}
use enterprise_rag_engine.Governance.Access.{evaluate}
use enterprise_rag_engine.Governance.Filter.{apply, is_deny}
use enterprise_rag_engine.Governance.Filter.Spec.{redact_chunk_keeps}
use enterprise_rag_engine.Governance.Allowlist.{in_process_ids, authorized_chunk_ids}

in_process_ids-apply :
    (cs : List ScoredChunk) (s : Session)
    → in_process_ids s (map (λ sc. sc.chunk) cs) ≡ map (λ sc. sc.chunk.chunk_id) (apply cs s).0
unfolding in_process_ids apply
in_process_ids-apply [] s = refl
in_process_ids-apply (sc ∷ rest) s = elim (Bool-cases (is_deny (evaluate sc.chunk s).decision)) [
  | inl denied ↦ rw denied (in_process_ids-apply rest s)
  | inr kept ↦
      rw (kept, in_process_ids-apply rest s, (redact_chunk_keeps sc (evaluate sc.chunk s)).0)
]

-- With the default engine, the allowlist over the chunks of the candidates is the list of the ids that the post-filter admits, in the same order.
pub authorized_chunk_ids-apply :
    (cs : List ScoredChunk) (s : Session)
    → authorized_chunk_ids s (map (λ sc. sc.chunk) cs) none
      ≡ map (λ sc. sc.chunk.chunk_id) (apply cs s).0
unfolding authorized_chunk_ids
authorized_chunk_ids-apply cs s = in_process_ids-apply cs s
