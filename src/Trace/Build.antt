-- ===== src/Trace/Build.antt =====
-- src/rag_engine/trace.py: `build_trace`, over a pipeline that is assembled and indexed. The
-- collaborators are the pipeline's; the embedder of the question is a parameter, and so are the
-- spans that the collector holds at the end. A call that raises is `none`.
pub mod Parity
pub mod Status
use enterprise_rag_engine.Prelude.{
  ℕ, String, Bool, ◌&&◌, not, Option, none, some, List, [], ◌∷◌, map, is_empty, length, take,
  if◌then◌else◌, count_if,
}
use enterprise_rag_engine.Prelude.Fallible.{◌>>=◌}
use enterprise_rag_engine.Schemas.{
  Float, ScoredChunk, Session, Decision, GovernanceDecision, Citation, is_public,
}
use enterprise_rag_engine.Governance.Filter.{apply, is_allow}
use enterprise_rag_engine.Governance.Citations.{build_citations}
use enterprise_rag_engine.Pipeline.{Parts, RagPipeline, retrieve_for_session, answer_of}
use enterprise_rag_engine.Trace.Terms.{key_terms, intent_shape}
use enterprise_rag_engine.Trace.Gates.{reason_text, gate_fired_for}
use enterprise_rag_engine.Trace.Stages.{
  Span, Formats, Stage, architecture_value, count_decisions, assemble_stages,
}

pub record GovDecision : Type 0 where
  pub title : String
  pub decision : Decision
  pub gate_fired : String
  pub reason : String
  pub required_level : Option ℕ
  pub required_roles : List String

pub record Dissection : Type 0 where
  pub raw : String
  pub key_terms : List String
  pub embedding_preview : List Float
  pub embedding_dim : ℕ
  pub intent_shape : String
  pub detected_topic : Option String

-- The trace's `Citation`
pub record CitationRow : Type 0 where
  pub title : String
  pub doc_hash : String
  pub quote : String

pub record TraceResult : Type 0 where
  pub answer : String
  pub citations : List CitationRow
  pub admitted : ℕ
  pub n_withheld : ℕ
  pub access_denied : Bool

pub record Trace : Type 0 where
  pub query_dissection : Dissection
  pub stages : List Stage
  pub governance : List GovDecision
  pub result : TraceResult

-- The embedder of `build_trace` and its number of dimensions
pub record Embedder : Type 0 where
  pub embed : String → List Float
  pub dim : ℕ

unfoldable pub gov_decision : Formats → ScoredChunk → GovernanceDecision → GovDecision
unfolding reason_text gate_fired_for
gov_decision formats cand dec =
    let sec = cand.chunk.security in
    record {
      title = cand.chunk.parent_title;
      decision = dec.decision;
      gate_fired = gate_fired_for (reason_text formats.repr dec.reason);
      reason = reason_text formats.repr dec.reason;
      required_level = if is_public sec then none else some sec.clearance_level;
      required_roles = dec.required_roles;
    }

-- The loop over `zip(candidates, trail)`
unfoldable pub governance_rows :
    Formats → List ScoredChunk → List GovernanceDecision → List GovDecision
unfolding gov_decision
governance_rows formats (c ∷ cs) (d ∷ ds) = gov_decision formats c d ∷ governance_rows formats cs ds
governance_rows formats [] ds = []
governance_rows formats (c ∷ cs) [] = []

abbrev pub citation_row : Citation → CitationRow
citation_row c = record { title = c.parent_title; doc_hash = c.doc_hash; quote = c.quote }

unfoldable pub trace_result :
    String
    → List Citation
    → List ScoredChunk
    → List ScoredChunk
    → List GovernanceDecision
    → TraceResult
unfolding is_allow
trace_result answer citations candidates admitted trail = record {
  answer = answer;
  citations = map citation_row citations;
  admitted = length admitted;
  n_withheld = count_decisions (λ decision. not (is_allow decision)) trail;
  access_denied = is_empty admitted && not (is_empty candidates);
}

module _ {Num Vec : Type 0} (parts : Parts Num Vec) (embedder : Embedder) (formats : Formats) where
  unfoldable pub dissect : String → Dissection
  unfolding key_terms intent_shape architecture_value
  dissect question = record {
    raw = question;
    key_terms = key_terms question;
    embedding_preview = map formats.round_4 (take 8 (embedder.embed question));
    embedding_dim = embedder.dim;
    intent_shape = intent_shape question;
    detected_topic = some (architecture_value (parts.route question));
  }

  -- The trace, from the candidates, what is left of them and the answer
  unfoldable pub trace_of :
      List Span
      → String
      → String
      → List ScoredChunk
      → List ScoredChunk
      → List GovernanceDecision
      → String
      → Trace
  unfolding dissect governance_rows trace_result assemble_stages
  trace_of spans request_id question candidates admitted trail answer = record {
    query_dissection = dissect question;
    stages =
        assemble_stages formats spans request_id (parts.route question) candidates trail admitted
          answer;
    governance = governance_rows formats candidates trail;
    result =
        trace_result answer (build_citations parts.setup.sha256 parts.max_quote_chars admitted)
          candidates admitted trail;
  }

  -- `build_trace`
  unfoldable pub build_trace :
      List Span → String → String → Session → RagPipeline Num Vec → Option Trace
  unfolding retrieve_for_session answer_of trace_of
  build_trace spans request_id question session st =
      retrieve_for_session parts st.indexed question session >>= λ candidates.
      let (admitted, trail) = apply candidates session in
      answer_of parts st.indexed question session admitted >>= λ answer.
      some (trace_of spans request_id question candidates admitted trail answer)
