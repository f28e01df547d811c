-- ===== src/Trace/Tests.antt =====
-- The trace of a question to a pipeline with a customer record and a handbook.
use mathlib.Core.Option as Option
use Prim.Native.String.{◌++◌ as concat}
use enterprise_rag_engine.Prelude.{
  ℕ, String, ◌≡◌, refl, true, none, some, List, [], ◌∷◌, map, fold_text, lower, keep, has_part,
  contains, string_eq,
}
use enterprise_rag_engine.Schemas.{EnrichedChunk, ScoredChunk, Decision, Float, bits, is_public}
use enterprise_rag_engine.Governance.Access.{evaluate}
use enterprise_rag_engine.Governance.Filter.{apply}
use enterprise_rag_engine.Pipeline.{scored, query, retrieve_for_session, answer_of}
use enterprise_rag_engine.Pipeline.Fixtures.{
  chunk, customer, handbook, parts, agent, pipeline, clock,
}
use enterprise_rag_engine.Trace.Terms.{key_terms, tokens, runs, is_token_char, collect_terms}
use enterprise_rag_engine.Trace.Gates.{reason_text, gate_fired_for}
use enterprise_rag_engine.Trace.Gates.Labels.{gate_fired_for_public}
use enterprise_rag_engine.Trace.Stages.{Span, Formats, span_ms, by_request, first_ms}
use enterprise_rag_engine.Trace.Build.{Trace, Embedder, trace_of, build_trace}
use enterprise_rag_engine.Trace.Build.Parity.{
  traced, responded, decided_by, build_trace-query, build_trace-evaluate,
}

terms_read :
    key_terms "What is the refund window, the refund?" ≡ "what" ∷ "the" ∷ "refund" ∷ "window" ∷ []
unfolding key_terms tokens runs is_token_char collect_terms fold_text lower contains
terms_read = refl

abbrev question : String
question = "refund window"

abbrev ms_of : Float → ℕ
ms_of (bits n) = n

abbrev formats : Formats
formats = record { to_ms = ms_of; round_4 = λ x. x; repr = λ s. concat "'" (concat s "'") }

abbrev embedder : Embedder
embedder = record { embed = λ q. bits 0 ∷ []; dim = 1 }

abbrev span : String → ℕ → Span
span name n = record {
  name = name;
  request_id = "r";
  iteration = none;
  action = none;
  duration_s = bits n;
}

abbrev spans : List Span
spans = span "route" 1 ∷ span "retrieve" 20 ∷ span "govern" 3 ∷ span "generate" 400 ∷ []

duration_read : span_ms formats spans "r" "govern" ≡ 3
unfolding span_ms by_request first_ms keep
duration_read = refl

build_trace-query_example :
    Option.map traced (build_trace parts embedder formats spans "r" question agent (pipeline none))
    ≡ Option.map responded (query parts clock question agent (pipeline none)).0
build_trace-query_example =
    build_trace-query parts embedder formats spans "r" question agent (pipeline none) clock

abbrev candidates : List ScoredChunk
candidates = scored customer ∷ scored handbook ∷ []

abbrev trace : Trace
trace =
    trace_of parts embedder formats spans "r" question candidates (apply candidates agent).0
      (apply candidates agent).1 "within 30 days"

trace_built :
    build_trace parts embedder formats spans "r" question agent (pipeline none) ≡ some trace
unfolding build_trace retrieve_for_session answer_of
trace_built = refl

build_trace-evaluate_example :
    (cs : List ScoredChunk) × (retrieve_for_session parts (pipeline none).indexed question agent
      ≡ some cs)
    × (decided_by trace.governance ≡ map (λ sc. (evaluate sc.chunk agent).decision) cs)
build_trace-evaluate_example =
    build_trace-evaluate parts embedder formats spans "r" question agent (pipeline none) trace
      trace_built

abbrev mislabelled : EnrichedChunk
mislabelled = chunk "c3" "public" 3 "minutes of the board"

quoted : has_part "public" "'public'" ≡ true
unfolding has_part
quoted = refl

gate_fired_for_public_example :
    ((evaluate mislabelled agent).decision ≡ Decision.deny)
    × (gate_fired_for (reason_text formats.repr (evaluate mislabelled agent).reason) ≡ "public")
gate_fired_for_public_example =
    gate_fired_for_public formats.repr mislabelled agent (unfold is_public in refl) refl
      (unfold contains in refl) quoted
