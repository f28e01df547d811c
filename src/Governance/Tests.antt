-- ===== src/Governance/Tests.antt =====
-- The governance of a small corpus: one chunk of each kind, seen by a few sessions.
use enterprise_rag_engine.Prelude.{
  if◌then◌else◌, ℕ, ◌≤◌, String, ◌≡◌, refl, true, not, List, [], ◌∷◌, Option, none, some, ◌==◌,
  string_eq, map, keep, arith, contains, intersects, All, strip, lstrip, rstrip, flatten_lines,
  take_chars, before_last_space,
}
use enterprise_rag_engine.Prelude.Dict.{lookup}
use enterprise_rag_engine.Schemas.{
  bits, Value, SecurityContext, EnrichedChunk, Session, ScoredChunk, Decision, is_public,
}
use enterprise_rag_engine.Governance.Access.{evaluate, evaluate_gates, evaluate_pii, partial_roles}
use enterprise_rag_engine.Governance.Access.Monotone.{reveal, AtLeast, reveal-evaluate_mono}
use enterprise_rag_engine.Governance.Masking.{redact_chunk}
use enterprise_rag_engine.Governance.Filter.{apply, is_deny}
use enterprise_rag_engine.Governance.Filter.Spec.{admits, redacted, apply_lem}
use enterprise_rag_engine.Governance.Filter.Conceals.{Secret}
use enterprise_rag_engine.Governance.Filter.Twice.{apply_twice_drops}
use enterprise_rag_engine.Governance.Allowlist.{authorized_chunk_ids, in_process_ids}
use enterprise_rag_engine.Governance.Allowlist.Agrees.{authorized_chunk_ids-apply}
use enterprise_rag_engine.Governance.Rebac.{Facts, facts_of, decision_is_retrievable, rebac_ids}
use enterprise_rag_engine.Governance.Rebac.Parity.{
  IsGoverned, Holds, retrievable-evaluate, retrievable_unrecognised, rebac_ids-parity,
}
use enterprise_rag_engine.Governance.Citations.{shorten, quote_of}

abbrev security : ℕ → String → List String → List String → SecurityContext
security level cls allowed need = record {
  allowed_roles = allowed;
  clearance_level = level;
  owner_department = "ops";
  sensitivity_class = cls;
  need_to_know_roles = need;
}

abbrev chunk : String → String → SecurityContext → Option (List String) → EnrichedChunk
chunk id modality sec partial_for = record {
  chunk_id = id;
  parent_doc_id = "doc";
  parent_title = "Document";
  content = "the content";
  contextual_anchor = "";
  security = sec;
  ordinal = 0;
  modality = modality;
  metadata = record { partial_for = partial_for; others = ("image", Value.text "bytes") ∷ [] };
}

abbrev scored : EnrichedChunk → ScoredChunk
scored c = record { chunk = c; score = bits 0; lexical_rank = none; dense_rank = none }

abbrev handbook : EnrichedChunk
handbook = chunk "c1" "text" (security 1 "B" [] []) none

abbrev customer : EnrichedChunk
customer = chunk "c2" "image" (security 2 "D" [] []) none

abbrev payroll : EnrichedChunk
payroll = chunk "c3" "text" (security 2 "G" [] ("HR" ∷ [])) (some ("TEAM_LEAD" ∷ []))

abbrev corpus : List ScoredChunk
corpus = scored handbook ∷ scored customer ∷ scored payroll ∷ []

abbrev session : ℕ → List String → Session
session level roles = record { user_id = "u"; roles = roles; clearance_level = level }

abbrev lead : Session
lead = session 2 ("TEAM_LEAD" ∷ [])

decisions_test :
    map (λ sc. (evaluate sc.chunk lead).decision) corpus
    ≡ Decision.allow ∷ Decision.mask ∷ Decision.partial ∷ []
unfolding evaluate evaluate_gates evaluate_pii is_public partial_roles contains intersects
decisions_test = refl

abbrev stolen : ScoredChunk → Secret
stolen _ = record {
  content = "another text";
  anchor = "another anchor";
  payload = ("image", Value.text "pixels") ∷ [];
}

apply_lem_example :
    ((apply corpus lead).0 ≡ map (redacted lead) (keep (admits lead) corpus))
    × ((apply corpus lead).1 ≡ map (λ sc. evaluate sc.chunk lead) corpus)
apply_lem_example = apply_lem corpus lead

authorized_chunk_ids-apply_example :
    authorized_chunk_ids lead (map (λ sc. sc.chunk) corpus) none
    ≡ map (λ sc. sc.chunk.chunk_id) (apply corpus lead).0
authorized_chunk_ids-apply_example = authorized_chunk_ids-apply corpus lead

abbrev officer : Session
officer = session 4 ("HR" ∷ "TEAM_LEAD" ∷ [])

lead-officer : AtLeast lead officer
unfolding contains
lead-officer = record { level = omega arith; roles = λ r h. ground (arith, h) }

reveal-evaluate_mono_example :
    reveal (evaluate payroll lead).decision ≤ reveal (evaluate payroll officer).decision
reveal-evaluate_mono_example = reveal-evaluate_mono payroll lead officer lead-officer refl

-- No class, a need to know, and a scope for the team leads
abbrev unclassed : EnrichedChunk
unclassed =
    chunk "c4" "image" (security 2 "" ("FINANCE" ∷ []) ("HR" ∷ [])) (some ("TEAM_LEAD" ∷ []))

customer_masked : (evaluate customer lead).decision ≡ Decision.mask
unfolding evaluate evaluate_pii is_public contains
customer_masked = refl

unclassed_partial : (evaluate unclassed lead).decision ≡ Decision.partial
unfolding evaluate evaluate_gates is_public partial_roles contains intersects
unclassed_partial = refl

apply_twice_drops_example :
    ((apply (scored unclassed ∷ []) lead).0
      ≡ redact_chunk (scored unclassed) (evaluate unclassed lead) ∷ [])
    × ((apply (apply (scored unclassed ∷ []) lead).0 lead).0 ≡ [])
apply_twice_drops_example = apply_twice_drops (scored unclassed) lead refl unclassed_partial

abbrev view : String → Facts
view id =
    if id == "c1"
    then facts_of handbook
    else if id == "c2"
    then facts_of customer
    else facts_of payroll

corpus-IsGoverned :
    All
      (λ c. IsGoverned c lead × (facts_of c ≡ view c.chunk_id))
      (handbook ∷ customer ∷ payroll ∷ [])
unfolding contains
corpus-IsGoverned = (
  (record { level = omega arith; recognised = refl }, refl),
  (
    (record { level = omega arith; recognised = refl }, refl),
    ((record { level = omega arith; recognised = refl }, refl), tt),
  ),
)

empty_store : Holds view []
unfolding lookup
empty_store k f h = ground (arith, h)

rebac_ids-parity_example :
    (rebac_ids [] lead (handbook ∷ customer ∷ payroll ∷ [])).1
    ≡ some (in_process_ids lead (handbook ∷ customer ∷ payroll ∷ []))
rebac_ids-parity_example =
    rebac_ids-parity view lead (handbook ∷ customer ∷ payroll ∷ []) [] corpus-IsGoverned empty_store

retrievable-evaluate_example :
    decision_is_retrievable (facts_of customer) lead
    ≡ some (not (is_deny (evaluate customer lead).decision))
retrievable-evaluate_example = retrievable-evaluate customer lead corpus-IsGoverned.1.0.0

abbrev unknown_class : EnrichedChunk
unknown_class = chunk "c5" "text" (security 2 "Z" [] []) none

retrievable_unrecognised_example :
    (decision_is_retrievable (facts_of unknown_class) lead ≡ some true)
    × ((evaluate unknown_class lead).decision ≡ Decision.deny)
unfolding is_public contains
retrievable_unrecognised_example =
    retrievable_unrecognised unknown_class lead refl refl (omega arith) (omega arith) refl

abbrev long_text : String
long_text = "returns within 30 days"

quote_shortened : quote_of 10 long_text ≡ "returns…"
unfolding quote_of shorten strip lstrip rstrip flatten_lines take_chars before_last_space
quote_shortened = refl
