-- ===== src/Governance/Filter/Twice.antt =====
-- Filtering what was filtered already: the corrective loop does it to what a retriever returns.
use enterprise_rag_engine.Prelude.{
  String, ◌≡◌, ◌≢◌, refl, sym, ap, ◌∙◌, true, false, List, [], ◌∷◌, arith, keep-keep, ◌==◌,
  string_eq, Bool-cases, inl, inr, All, none, Option, ◌⊎◌,
}
use enterprise_rag_engine.Schemas.{
  SecurityContext, EnrichedChunk, ScoredChunk, Session, Decision, GovernanceDecision,
}
use enterprise_rag_engine.Governance.Access.{evaluate, evaluate_pii, evaluate_gates, partial_roles}
use enterprise_rag_engine.Governance.Access.Gates.{decision-evaluate}
use enterprise_rag_engine.Governance.Masking.{redact_chunk, redacted_metadata}
use enterprise_rag_engine.Governance.Filter.{apply, is_deny, is_allow}
use enterprise_rag_engine.Multimodal.Payload.{is_kept, scrub_metadata_for_withhold}

-- Text chunks, and the others unless they are admitted partially.
abbrev pub IsStable : Session → ScoredChunk → Type 0
IsStable s sc =
    ((sc.chunk.modality == "text") ≡ true) ⊎ ((evaluate sc.chunk s).decision ≢ Decision.partial)

-- What `evaluate` reads of a chunk.
abbrev core : String → String → SecurityContext → Option (List String) → EnrichedChunk
core id parent sec partial_for = record {
  chunk_id = id;
  parent_doc_id = parent;
  parent_title = "";
  content = "";
  contextual_anchor = "";
  security = sec;
  ordinal = 0;
  modality = "";
  metadata = record { partial_for = partial_for; others = [] };
}

evaluate-core :
    (c : EnrichedChunk) (s : Session)
    → evaluate c s ≡ evaluate (core c.chunk_id c.parent_doc_id c.security c.metadata.partial_for) s
unfolding evaluate evaluate_pii evaluate_gates
evaluate-core c s = refl

-- What a redaction keeps of that.
redact_chunk-core :
    (sc : ScoredChunk) (d : GovernanceDecision)
    → let c = (redact_chunk sc d).chunk in
      (c.chunk_id ≡ sc.chunk.chunk_id)
      × (c.parent_doc_id ≡ sc.chunk.parent_doc_id)
      × (c.security ≡ sc.chunk.security)
      × (c.modality ≡ sc.chunk.modality)
      × ((sc.chunk.modality == "text") ≡ true
          → c.metadata.partial_for ≡ sc.chunk.metadata.partial_for)
      × ((sc.chunk.modality == "text") ≡ false
          → is_allow d.decision ≡ false
          → c.metadata.partial_for ≡ none)
unfolding redact_chunk redacted_metadata scrub_metadata_for_withhold is_allow
redact_chunk-core sc d = (
  ground arith,
  ground arith,
  ground arith,
  ground arith,
  λ text. ground arith,
  λ other hidden. ground arith,
)

evaluate_pii-unscoped :
    (c : EnrichedChunk) (s : Session)
    → evaluate_pii (core c.chunk_id c.parent_doc_id c.security none) s ≡ evaluate_pii c s
unfolding evaluate_pii
evaluate_pii-unscoped c s = refl

evaluate_gates-unscoped :
    (c : EnrichedChunk) (s : Session)
    → (evaluate_gates c s).decision ≢ Decision.partial
    → evaluate_gates (core c.chunk_id c.parent_doc_id c.security none) s ≡ evaluate_gates c s
unfolding evaluate_gates
evaluate_gates-unscoped c s h = ground arith

-- Without partial roles, the decision is the same unless it was partial.
evaluate-unscoped :
    (c : EnrichedChunk) (s : Session)
    → (evaluate c s).decision ≢ Decision.partial
    → evaluate (core c.chunk_id c.parent_doc_id c.security none) s ≡ evaluate c s
unfolding evaluate
evaluate-unscoped c s h = ground (arith, evaluate_pii-unscoped c s, evaluate_gates-unscoped c s)

-- If it was partial, it is denial.
evaluate_partial-unscoped :
    (c : EnrichedChunk) (s : Session)
    → (evaluate c s).decision ≡ Decision.partial
    → (evaluate (core c.chunk_id c.parent_doc_id c.security none) s).decision ≡ Decision.deny
unfolding partial_roles
evaluate_partial-unscoped c s h = simp decision-evaluate (ground (arith, decision-evaluate c s))

-- The chunk that is left of a redaction, as far as `evaluate` reads it.
evaluate-redact_chunk :
    (sc : ScoredChunk) (d : GovernanceDecision) (s : Session)
    → evaluate (redact_chunk sc d).chunk s
      ≡ evaluate
          (core sc.chunk.chunk_id sc.chunk.parent_doc_id sc.chunk.security
            (redact_chunk sc d).chunk.metadata.partial_for)
          s
evaluate-redact_chunk sc d s =
    let (id, parent, sec, _, _, _) = redact_chunk-core sc d in
    evaluate-core (redact_chunk sc d).chunk s ∙ rw (id, parent, sec)

redact_chunk-allow :
    (sc : ScoredChunk) (d : GovernanceDecision)
    → is_allow d.decision ≡ true
    → redact_chunk sc d ≡ sc
unfolding redact_chunk is_allow
redact_chunk-allow sc d h = ground arith

-- The decision on a stable chunk is the same after its redaction.
evaluate_again :
    (sc : ScoredChunk) (s : Session)
    → IsStable s sc
    → evaluate (redact_chunk sc (evaluate sc.chunk s)).chunk s ≡ evaluate sc.chunk s
evaluate_again sc s (inl text) =
    let d = evaluate sc.chunk s in
    let (_, _, _, _, kept, _) = redact_chunk-core sc d in
    evaluate-redact_chunk sc d s ∙ rw (kept text) (sym (evaluate-core sc.chunk s))
evaluate_again sc s (inr whole) =
    let d = evaluate sc.chunk s in
    let (_, _, _, _, kept, gone) = redact_chunk-core sc d in
    elim (Bool-cases (is_allow d.decision)) [
      | inl allowed ↦ rw (redact_chunk-allow sc d allowed)
      | inr hidden ↦ elim (Bool-cases (sc.chunk.modality == "text")) [
        | inl text ↦ evaluate-redact_chunk sc d s ∙ rw (kept text) (sym (evaluate-core sc.chunk s))
        | inr other ↦
            evaluate-redact_chunk sc d s
            ∙ rw (gone other hidden) (evaluate-unscoped sc.chunk s whole)
      ]
    ]

-- Redaction by one decision, twice.
redact_chunk_twice :
    (sc : ScoredChunk) (d : GovernanceDecision)
    → redact_chunk (redact_chunk sc d) d ≡ redact_chunk sc d
unfolding redact_chunk redacted_metadata scrub_metadata_for_withhold
redact_chunk_twice sc d = ground (arith, keep-keep is_kept sc.chunk.metadata.others)

-- Filtering a second time, for the same session, changes nothing where the chunks are text or are
-- not admitted partially.
pub apply-apply :
    (cs : List ScoredChunk) (s : Session)
    → All (IsStable s) cs
    → (apply (apply cs s).0 s).0 ≡ (apply cs s).0
unfolding apply
apply-apply [] s h = refl
apply-apply (sc ∷ rest) s h = elim (Bool-cases (is_deny (evaluate sc.chunk s).decision)) [
  | inl denied ↦ rw denied (apply-apply rest s h.1)
  | inr kept ↦ rw (kept, evaluate_again sc s h.0, kept, redact_chunk_twice, apply-apply rest s h.1)
]

is_allow-partial :
    (d : Decision) → d ≡ Decision.partial → (is_allow d ≡ false) × (is_deny d ≡ false)
unfolding is_allow is_deny
is_allow-partial d h = (ground arith, ground arith)

is_deny-deny : (d : Decision) → d ≡ Decision.deny → is_deny d ≡ true
unfolding is_deny
is_deny-deny d h = ground arith

apply_one :
    (sc : ScoredChunk) (s : Session)
    → (is_deny (evaluate sc.chunk s).decision ≡ true → (apply (sc ∷ []) s).0 ≡ [])
      × (is_deny (evaluate sc.chunk s).decision ≡ false
          → (apply (sc ∷ []) s).0 ≡ redact_chunk sc (evaluate sc.chunk s) ∷ [])
unfolding apply
apply_one sc s = (λ h. rw h, λ h. rw h)

-- A chunk that is not text and that is admitted partially is dropped when it is filtered again.
pub apply_twice_drops :
    (sc : ScoredChunk) (s : Session)
    → (sc.chunk.modality == "text") ≡ false
    → (evaluate sc.chunk s).decision ≡ Decision.partial
    → ((apply (sc ∷ []) s).0 ≡ redact_chunk sc (evaluate sc.chunk s) ∷ [])
      × ((apply (apply (sc ∷ []) s).0 s).0 ≡ [])
apply_twice_drops sc s other scoped =
    let d = evaluate sc.chunk s in
    let (_, _, _, _, _, gone) = redact_chunk-core sc d in
    let (hidden, kept) = is_allow-partial d.decision scoped in
    let first = (apply_one sc s).1 kept in
    let again =
      ap (λ (x : GovernanceDecision). x.decision) (evaluate-redact_chunk sc d s)
      ∙ rw (gone other hidden) (evaluate_partial-unscoped sc.chunk s scoped) in
    (first, rw first ((apply_one (redact_chunk sc d) s).0 (is_deny-deny _ again)))
