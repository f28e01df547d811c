-- ===== src/Governance/Masking.antt =====
-- src/rag_engine/governance/masking.py: the redaction of an admitted chunk.
use Prim.Native.String.{◌++◌ as concat}
use enterprise_rag_engine.Prelude.{
  String, Option, none, some, ◌==◌, string_eq, if◌then◌else◌, is_nil,
}
use enterprise_rag_engine.Schemas.{
  EnrichedChunk, ScoredChunk, Metadata, Decision, GovernanceDecision,
}
use enterprise_rag_engine.Multimodal.Payload.{scrub_metadata_for_withhold}

pub data MaskReason : Type 0 where
  pii_mask field_acl_mask : MaskReason

-- `MaskReason(text)`: `none` is the ValueError.
unfoldable pub mask_reason_of : String → Option MaskReason
mask_reason_of text =
    if text == "pii_mask"
    then some pii_mask
    else if text == "field_acl_mask"
    then some field_acl_mask
    else none

unfoldable pub redaction : MaskReason → String
redaction pii_mask = "[REDACTED]"
redaction field_acl_mask = "[RESTRICTED]"

-- `mask_value(None, reason)`: the value is not used.
unfoldable pub mask_value : MaskReason → String
unfolding redaction
mask_value reason = redaction reason

abbrev pub partial_token : String
partial_token = "[PARTIAL — scoped access; full content withheld]"

unfoldable pub token_for : GovernanceDecision → String
unfolding mask_value mask_reason_of
token_for d = elim d.decision [
  | Decision.mask ↦
      elim (mask_reason_of (if is_nil d.mask_reason then "pii_mask" else d.mask_reason)) [
        | some reason ↦ mask_value reason
        | none ↦ redaction pii_mask
      ]
  | Decision.partial ↦ partial_token
  | _ ↦ ""
]

-- `_token_for(decision) or _REDACTIONS[MaskReason.PII_MASK]`
unfoldable pub base_token : GovernanceDecision → String
unfolding token_for
base_token d = if is_nil (token_for d) then redaction pii_mask else token_for d

unfoldable pub redacted_content : EnrichedChunk → GovernanceDecision → String
unfolding base_token
redacted_content c d =
    if c.modality == "text"
    then base_token d
    else concat (base_token d) (concat " [" (concat c.modality " withheld]"))

unfoldable pub redacted_metadata : EnrichedChunk → Metadata
redacted_metadata c =
    if c.modality == "text" then c.metadata else scrub_metadata_for_withhold c.metadata

unfoldable pub redact_chunk : ScoredChunk → GovernanceDecision → ScoredChunk
unfolding redacted_content redacted_metadata
redact_chunk sc d =
    let redacted : ScoredChunk = record {
      chunk = record {
        chunk_id = sc.chunk.chunk_id;
        parent_doc_id = sc.chunk.parent_doc_id;
        parent_title = sc.chunk.parent_title;
        content = redacted_content sc.chunk d;
        contextual_anchor = "";
        security = sc.chunk.security;
        ordinal = sc.chunk.ordinal;
        modality = sc.chunk.modality;
        metadata = redacted_metadata sc.chunk;
      };
      score = sc.score;
      lexical_rank = sc.lexical_rank;
      dense_rank = sc.dense_rank;
    } in
    elim d.decision [ Decision.allow ↦ sc | _ ↦ redacted ]
