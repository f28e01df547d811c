-- ===== src/Governance/Access.antt =====
-- src/rag_engine/governance/access.py: the decision for one chunk and one session.
pub mod Gates
pub mod Monotone
use enterprise_rag_engine.Prelude.{
  ℕ, ◌≤◌, String, Bool, not, ◌&&◌, Option, none, some, List, [], ◌∷◌, ◌==◌, string_eq, leb, ltb,
  if◌then◌else◌, is_empty, contains, intersects, is_nil,
}
use enterprise_rag_engine.Prelude.Sets.{sorted_set}
use enterprise_rag_engine.Schemas.{
  SecurityContext, EnrichedChunk, Metadata, Session, Decision, Reason, GovernanceDecision,
  is_public,
}

abbrev pub pii_class : String
pii_class = "D"

abbrev pub valid_classes : List String
valid_classes =
    "A" ∷ "B" ∷ "C" ∷ "D" ∷ "E" ∷ "F" ∷ "G" ∷ "H" ∷ "I" ∷ "J" ∷ "K" ∷ "L" ∷ "M" ∷ "N" ∷ []

-- `set(chunk.metadata.get("partial_for", []))`
unfoldable pub partial_roles : Metadata → List String
partial_roles m = elim m.partial_for [ none ↦ [] | some roles ↦ roles ]

-- `GovernanceDecision(decision=…, reason=…, mask_reason=…, scope=…, **base)`
abbrev pub decided :
    EnrichedChunk → Session → Decision → Reason → String → String → GovernanceDecision
decided chunk session decision reason mask_reason scope = record {
  chunk_id = chunk.chunk_id;
  parent_doc_id = chunk.parent_doc_id;
  decision = decision;
  reason = reason;
  required_roles = chunk.security.allowed_roles;
  session_roles = session.roles;
  mask_reason = mask_reason;
  scope = scope;
}

-- The masking leg, for customer PII.
unfoldable pub evaluate_pii : EnrichedChunk → Session → GovernanceDecision
evaluate_pii chunk session =
    if leb 4 session.clearance_level
    then decided chunk session Decision.allow Reason.pii_cleared "" ""
    else if leb 2 session.clearance_level
    then decided chunk session Decision.mask Reason.pii_masked "pii_mask" ""
    else decided chunk session Decision.deny Reason.pii_below_min_level "" ""

-- The level gate, the need-to-know gate and the gate of the allowed roles.
unfoldable pub evaluate_gates : EnrichedChunk → Session → GovernanceDecision
unfolding partial_roles
evaluate_gates chunk session =
    let sec = chunk.security in
    let ntk = sec.need_to_know_roles in
    let partial_for = partial_roles chunk.metadata in
    if ltb session.clearance_level sec.clearance_level
    then decided chunk session Decision.deny
        (Reason.insufficient_clearance session.clearance_level sec.clearance_level) "" ""
    else if not (is_empty ntk) && not (intersects session.roles ntk)
    then (if not (is_empty partial_for) && intersects session.roles partial_for
        then decided chunk session Decision.partial Reason.scoped_access "" "own_component"
        else decided chunk session Decision.deny (Reason.need_to_know (sorted_set ntk)) "" "")
    else if is_nil sec.sensitivity_class && not (intersects session.roles sec.allowed_roles)
    then decided chunk session Decision.deny (Reason.role_mismatch sec.allowed_roles) "" ""
    else decided chunk session Decision.allow Reason.clearance_and_role_satisfied "" ""

unfoldable pub evaluate : EnrichedChunk → Session → GovernanceDecision
evaluate chunk session =
    let cls = chunk.security.sensitivity_class in
    if is_public chunk.security
    then decided chunk session Decision.allow Reason.public_content "" ""
    else if not (is_nil cls) && not (contains cls valid_classes)
    then decided chunk session Decision.deny (Reason.unrecognized_sensitivity_class cls) "" ""
    else if cls == pii_class
    then evaluate_pii chunk session
    else evaluate_gates chunk session
