-- ===== src/Governance/Filter/Conceals.antt =====
-- Nothing that is not allowed in full shows in what the filter returns.
use mathlib.Core.List.{append-nil}
use enterprise_rag_engine.Prelude.{
  String, ◌≡◌, refl, ap, ◌∙◌, Bool, true, false, not, ◌&&◌, ◌||◌, contains, List, [], ◌∷◌, ◌++◌,
  map, arith, keep, keep-append, ◌==◌, string_eq, if◌then◌else◌, Bool-cases, inl, inr,
}
use enterprise_rag_engine.Schemas.{ScoredChunk, Session, Value, GovernanceDecision}
use enterprise_rag_engine.Governance.Access.{evaluate, evaluate_pii, evaluate_gates}
use enterprise_rag_engine.Governance.Masking.{redact_chunk, redacted_metadata}
use enterprise_rag_engine.Governance.Filter.{apply, is_allow}
use enterprise_rag_engine.Multimodal.Payload.{is_kept, is_scalar, scrub_metadata_for_withhold}

-- Other contents that a chunk could have had: its text, its anchor, and for a chunk that is not
-- text other metadata than its scalar provenance.
pub record Secret : Type 0 where
  pub content : String
  pub anchor : String
  pub payload : List (String × Value)

-- A value that holds no other: no bytes, no list and no object
abbrev pub is_plain : Value → Bool
is_plain Value.null = true
is_plain (Value.boolean _) = true
is_plain (Value.int _) = true
is_plain (Value.negative _) = true
is_plain (Value.float _) = true
is_plain (Value.text _) = true
is_plain (Value.bytes _) = false
is_plain (Value.array _) = false
is_plain (Value.object _) = false

-- Where a chunk that is not text comes from, and its caption
abbrev pub is_provenance : String × Value → Bool
is_provenance (k, v) =
    (k == "modality" || (k == "source_uri" || (k == "page" || (k == "ordinal" || k == "caption"))))
    && is_plain v

abbrev pub not_provenance : String × Value → Bool
not_provenance e = not (is_provenance e)

abbrev pub with_secret : ScoredChunk → Secret → ScoredChunk
with_secret sc x = record sc {
  chunk = record sc.chunk {
    content = x.content;
    contextual_anchor = x.anchor;
    metadata = record sc.chunk.metadata {
      others =
          if sc.chunk.modality == "text"
          then sc.chunk.metadata.others
          else keep is_provenance sc.chunk.metadata.others ++ keep not_provenance x.payload;
    };
  };
}

-- The secrets are put into the chunks that the session is not allowed to read in full.
abbrev pub vary : Session → (ScoredChunk → Secret) → ScoredChunk → ScoredChunk
vary s f sc = if is_allow (evaluate sc.chunk s).decision then sc else with_secret sc (f sc)

is_kept-provenance : (e : String × Value) → is_kept e ≡ is_provenance e
unfolding is_kept is_scalar contains
is_kept-provenance (k, v) = go v
  where
    go : (v : Value) → is_kept (k, v) ≡ is_provenance (k, v)
    go Value.null = ground arith
    go (Value.boolean _) = ground arith
    go (Value.int _) = ground arith
    go (Value.negative _) = ground arith
    go (Value.float _) = ground arith
    go (Value.text _) = ground arith
    go (Value.bytes _) = ground arith
    go (Value.array _) = ground arith
    go (Value.object _) = ground arith

keep-provenance :
    (xs : List (String × Value)) → keep is_kept (keep is_provenance xs) ≡ keep is_kept xs
unfolding keep
keep-provenance [] = refl
keep-provenance (x ∷ xs) = elim (Bool-cases (is_provenance x)) [
  | inl h ↦
      let kept = is_kept-provenance x ∙ h in rw h (rw kept (ap (λ ys. x ∷ ys) (keep-provenance xs)))
  | inr h ↦ rw h (rw (is_kept-provenance x ∙ h) (keep-provenance xs))
]

keep-not_provenance : (xs : List (String × Value)) → keep is_kept (keep not_provenance xs) ≡ []
unfolding keep
keep-not_provenance [] = refl
keep-not_provenance (x ∷ xs) = elim (Bool-cases (is_provenance x)) [
  | inl h ↦ rw h (keep-not_provenance xs)
  | inr h ↦ rw h (rw (is_kept-provenance x ∙ h) (keep-not_provenance xs))
]

evaluate-with_secret :
    (sc : ScoredChunk) (x : Secret) (s : Session)
    → evaluate (with_secret sc x).chunk s ≡ evaluate sc.chunk s
unfolding evaluate evaluate_pii evaluate_gates
evaluate-with_secret sc x s = refl

redacted_metadata-with_secret :
    (sc : ScoredChunk) (x : Secret)
    → redacted_metadata (with_secret sc x).chunk ≡ redacted_metadata sc.chunk
unfolding redacted_metadata scrub_metadata_for_withhold
redacted_metadata-with_secret sc x = elim (Bool-cases (sc.chunk.modality == "text")) [
  | inl text ↦ rw text
  | inr other ↦ rw other (simp (keep-append, keep-provenance, keep-not_provenance, append-nil))
]

redact_chunk-with_secret :
    (sc : ScoredChunk) (x : Secret) (d : GovernanceDecision)
    → is_allow d.decision ≡ false
    → redact_chunk (with_secret sc x) d ≡ redact_chunk sc d
unfolding redact_chunk is_allow
redact_chunk-with_secret sc x d h = ground (arith, redacted_metadata-with_secret sc x)

apply-vary_one :
    (sc : ScoredChunk) (rest : List ScoredChunk) (x : Secret) (s : Session)
    → is_allow (evaluate sc.chunk s).decision ≡ false
    → apply (with_secret sc x ∷ rest) s ≡ apply (sc ∷ rest) s
unfolding apply
apply-vary_one sc rest x s h =
    simp (evaluate-with_secret sc x s, redact_chunk-with_secret sc x (evaluate sc.chunk s) h)

apply-cons :
    (sc : ScoredChunk) (xs ys : List ScoredChunk) (s : Session)
    → apply xs s ≡ apply ys s
    → apply (sc ∷ xs) s ≡ apply (sc ∷ ys) s
unfolding apply
apply-cons sc xs ys s e = rw e

pub apply-vary :
    (cs : List ScoredChunk) (s : Session) (f : ScoredChunk → Secret)
    → apply (map (vary s f) cs) s ≡ apply cs s
apply-vary [] s f = refl
apply-vary (sc ∷ rest) s f = elim (Bool-cases (is_allow (evaluate sc.chunk s).decision)) [
  | inl allowed ↦ rw allowed (apply-cons sc _ rest s (apply-vary rest s f))
  | inr hidden ↦ rw hidden (
      apply-cons (with_secret sc (f sc)) _ rest s (apply-vary rest s f)
      ∙ apply-vary_one sc rest (f sc) s hidden)
]
