-- ===== src/Trace/Build/Parity.antt =====
-- A trace says what the pipeline answers, and decides as `evaluate` does.
use mathlib.Core.Option as Option
use enterprise_rag_engine.Prelude.{
  String, ◌≡◌, refl, ap, none, some, List, [], ◌∷◌, map, Option-cases, some_inj, inl, inr,
}
use enterprise_rag_engine.Schemas.{ScoredChunk, Session, Decision, GovernanceDecision, RagResponse}
use enterprise_rag_engine.Governance.Access.{evaluate}
use enterprise_rag_engine.Governance.Filter.{apply}
use enterprise_rag_engine.Pipeline.{
  Parts, RagPipeline, Clock, retrieve_for_session, answer_of, cold_response, respond, cold, look_up,
  query,
}
use enterprise_rag_engine.Trace.Stages.{Span, Formats}
use enterprise_rag_engine.Trace.Build.{
  GovDecision, TraceResult, Trace, Embedder, citation_row, gov_decision, governance_rows,
  trace_result, trace_of, build_trace,
}

-- What a response says of itself in the terms of a trace
abbrev pub result_of : RagResponse → TraceResult
result_of r = record {
  answer = r.answer;
  citations = map citation_row r.citations;
  admitted = r.admitted;
  n_withheld = r.n_withheld;
  access_denied = r.access_denied;
}

abbrev pub decisions_of : List GovernanceDecision → List Decision
decisions_of = map (λ (d : GovernanceDecision). d.decision)

abbrev pub decided_by : List GovDecision → List Decision
decided_by = map (λ (g : GovDecision). g.decision)

-- What is compared of a trace and of a response
abbrev pub traced : Trace → TraceResult × List Decision
traced t = (t.result, decided_by t.governance)

abbrev pub responded : RagResponse → TraceResult × List Decision
responded r = (result_of r, decisions_of r.governance_trail)

governance_rows-evaluate :
    (formats : Formats) (cs : List ScoredChunk) (s : Session)
    → decided_by (governance_rows formats cs (apply cs s).1)
      ≡ map (λ sc. (evaluate sc.chunk s).decision) cs
unfolding governance_rows gov_decision apply
governance_rows-evaluate formats [] s = refl
governance_rows-evaluate formats (c ∷ cs) s =
    ap (λ ds. (evaluate c.chunk s).decision ∷ ds) (governance_rows-evaluate formats cs s)

governance_rows-decisions :
    (formats : Formats) (cs : List ScoredChunk) (s : Session)
    → decided_by (governance_rows formats cs (apply cs s).1) ≡ decisions_of (apply cs s).1
unfolding governance_rows gov_decision apply
governance_rows-decisions formats [] s = refl
governance_rows-decisions formats (c ∷ cs) s =
    ap (λ ds. (evaluate c.chunk s).decision ∷ ds) (governance_rows-decisions formats cs s)

module _ {Num Vec : Type 0} (parts : Parts Num Vec) (embedder : Embedder) (formats : Formats)
    (spans : List Span) (request_id question : String) (s : Session)
    (st : RagPipeline Num Vec) where
  -- The trace of a question exists if and only if a pipeline without a cache has a response to it;
  -- then it has the response's answer, citations, counts and report of denied access, and the
  -- decisions of its rows are those of the response's trail.
  pub build_trace-query :
      (clock : Clock Num)
      → Option.map traced (build_trace parts embedder formats spans request_id question s st)
        ≡ Option.map responded (query parts clock question s (record st { cache = none })).0
  unfolding build_trace trace_of query look_up cold respond cold_response trace_result
  build_trace-query clock = elim (Option-cases (retrieve_for_session parts st.indexed question s)) [
    | inl raised ↦ rw raised (rw (cold, raised))
    | inr (cs, found) ↦ elim (Option-cases (answer_of parts st.indexed question s (apply cs s).0)) [
      | inl raised ↦ rw found (rw (cold, found) (rw raised (rw (respond, raised))))
      | inr (answer, done) ↦ rw found (
          rw (cold, found)
            (rw done (rw (respond, done) (rw (governance_rows-decisions formats cs s)))))
    ]
  ]

  -- A trace is of what was retrieved, filtered and answered.
  abbrev pub IsTrace : Trace → Type 0
  IsTrace t =
      (cs : List ScoredChunk) × (answer : String) × (retrieve_for_session parts st.indexed question
          s
        ≡ some cs)
      × (answer_of parts st.indexed question s (apply cs s).0 ≡ some answer)
      × (trace_of parts embedder formats spans request_id question cs (apply cs s).0 (apply cs s).1
            answer
          ≡ t)

  build_trace-IsTrace :
      (t : Trace)
      → build_trace parts embedder formats spans request_id question s st ≡ some t
      → IsTrace t
  unfolding build_trace
  build_trace-IsTrace t h = elim (Option-cases (retrieve_for_session parts st.indexed question s)) [
    | inl raised ↦ cc (rw (build_trace, raised) at h)
    | inr (cs, found) ↦
        let h' = rw (build_trace, found) at h in
        elim (Option-cases (answer_of parts st.indexed question s (apply cs s).0)) [
          | inl raised ↦ cc (rw raised at h')
          | inr (answer, done) ↦ (cs, answer, found, done, some_inj (rw done at h'))
        ]
  ]

  -- Every trace is of the candidates that are retrieved for the session, and has one row for each
  -- of them, in order, with the decision of `evaluate` on the chunk.
  pub build_trace-evaluate :
      (t : Trace)
      → build_trace parts embedder formats spans request_id question s st ≡ some t
      → (cs : List ScoredChunk) × (retrieve_for_session parts st.indexed question s ≡ some cs)
        × (decided_by t.governance ≡ map (λ sc. (evaluate sc.chunk s).decision) cs)
  unfolding trace_of
  build_trace-evaluate t h =
      let (cs, answer, found, done, e) = build_trace-IsTrace t h in
      (cs, found, rw (← e) (governance_rows-evaluate formats cs s))
