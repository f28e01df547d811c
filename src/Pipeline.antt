-- ===== src/Pipeline.antt =====
-- src/rag_engine/pipeline.py: a query, from the cache to the response. The router, the retrievers,
-- the generator and the grader are parameters, and so is what the cache uses of Python and numpy.
-- Spans go to a tracer that cannot change the outcome. A call that raises is `none`.
pub mod Cases
pub mod Changes
pub mod Conceals
pub mod Counts
pub mod Fixtures
pub mod Hits
mod Tests
use enterprise_rag_engine.Prelude.{
  ℕ, String, Bool, true, false, ◌&&◌, Option, none, some, List, [], ◌∷◌, ◌++◌, map, string_eq, ltb,
  if◌then◌else◌, contains, is_empty, length, keep, count_if, not,
}
use enterprise_rag_engine.Prelude.Dict.{Dict, lookup, insert}
use enterprise_rag_engine.Prelude.Fallible.{◌>>=◌}
use enterprise_rag_engine.Schemas.{
  bits, EnrichedChunk, ScoredChunk, Session, Reason, GovernanceDecision, RagArchitecture,
  RagResponse,
}
use enterprise_rag_engine.Governance.Filter.{apply, is_allow, is_deny}
use enterprise_rag_engine.Governance.Citations.{build_citations}
use enterprise_rag_engine.Cache.Semantic.{Setup, Cache, CachedResult, get, put}
use enterprise_rag_engine.Selfrag.Loop.{
  RelevanceGrade, GroundednessGrade, Services, LoopResult, run,
}

-- What a pipeline is built with: its collaborators and the settings that a query reads. The calls
-- of the generator and the grader see the iteration that they are made in; a direct one has 0.
pub record Parts (Num Vec : Type 0) : Type 0 where
  pub route : String → RagArchitecture
  pub vector_retriever : Option (String → Session → Option (List ScoredChunk))
  pub retrieve : List EnrichedChunk → String → Option (List ScoredChunk)
  pub generate : ℕ → String → List ScoredChunk → Option String
  pub grade_relevance : ℕ → String → List ScoredChunk → Option RelevanceGrade
  pub grade_groundedness : ℕ → String → String → List ScoredChunk → Option GroundednessGrade
  pub reformulate : String → ℕ → String
  pub setup : Setup Num Vec
  pub max_quote_chars : ℕ
  pub selfrag_enabled : Bool
  pub selfrag_max_iterations : ℕ

-- A record of src/rag_engine/governance/audit.py, without its time
pub record AuditRecord : Type 0 where
  pub user_id : String
  pub roles : List String
  pub query : String
  pub allowed : List String
  pub blocked : List (String × Reason)

-- `indexed` is what the lexical retriever was given last, if it was given anything.
pub record RagPipeline (Num Vec : Type 0) : Type 0 where
  pub chunks : List EnrichedChunk
  pub indexed : Option (List EnrichedChunk)
  pub cache : Option (Cache Num Vec)
  pub audit : List AuditRecord

-- The readings of the clock: by the lookup, by the new entry and by the eviction
pub record Clock (Num : Type 0) : Type 0 where
  pub looked_up : Num
  pub created : Num
  pub evicted : Num

-- `AuditLog.record`
unfoldable pub audit_record : Session → String → List GovernanceDecision → AuditRecord
unfolding is_allow is_deny
audit_record session query trail = record {
  user_id = session.user_id;
  roles = session.roles;
  query = query;
  allowed =
      map (λ (d : GovernanceDecision). d.chunk_id)
        (keep (λ (d : GovernanceDecision). is_allow d.decision) trail);
  blocked =
      map (λ (d : GovernanceDecision). (d.chunk_id, d.reason))
        (keep (λ (d : GovernanceDecision). is_deny d.decision) trail);
}

-- `{c.chunk_id: c for c in chunks}`, from a dictionary on
unfoldable pub by_id : Dict String EnrichedChunk → List EnrichedChunk → Dict String EnrichedChunk
by_id d [] = d
by_id d (c ∷ cs) = by_id (insert c.chunk_id c d) cs

abbrev pub scored : EnrichedChunk → ScoredChunk
scored c = record {
  chunk = c;
  score = bits 4_607_182_418_800_017_408;  -- 1.0
  lexical_rank = none;
  dense_rank = none;
}

-- `[ScoredChunk(chunk=by_id[cid], score=1.0) for cid in chunk_ids if cid in by_id]`
unfoldable pub stored_chunks : Dict String EnrichedChunk → List String → List ScoredChunk
stored_chunks d [] = []
stored_chunks d (id ∷ ids) =
    let rest = stored_chunks d ids in elim (lookup id d) [ none ↦ rest | some c ↦ scored c ∷ rest ]

abbrev pub id_of : ScoredChunk → String
id_of sc = sc.chunk.chunk_id

-- `_govern_fn`
unfoldable pub govern_fn : List EnrichedChunk → List String → Session → List String
unfolding by_id stored_chunks
govern_fn chunks chunk_ids session =
    map id_of (apply (stored_chunks (by_id [] chunks) chunk_ids) session).0

abbrev pub abstain_message : String
abstain_message = "I don't have enough authorized, grounded context to answer that."

module _ {Num Vec : Type 0} (parts : Parts Num Vec) where
  -- `_retrieve_for_session`; the lexical retriever raises before it is given an index.
  unfoldable pub retrieve_for_session :
      Option (List EnrichedChunk) → String → Session → Option (List ScoredChunk)
  retrieve_for_session indexed question session = elim parts.vector_retriever [
    | some retrieve ↦ retrieve question session
    | none ↦ elim indexed [ none ↦ none | some chunks ↦ parts.retrieve chunks question ]
  ]

  -- The corrective loop's collaborators
  unfoldable pub services : Option (List EnrichedChunk) → Services
  unfolding retrieve_for_session
  services indexed = record {
    retrieve = λ i question session. retrieve_for_session indexed question session;
    generate = parts.generate;
    grade_relevance = parts.grade_relevance;
    grade_groundedness = parts.grade_groundedness;
    reformulate = parts.reformulate;
  }

  -- `_run_corrective_loop`
  unfoldable pub run_corrective_loop :
      Option (List EnrichedChunk) → String → Session → Option String
  unfolding services
  run_corrective_loop indexed question session =
      run (services indexed) parts.selfrag_max_iterations question session >>= λ result.
      some (if result.abstained then abstain_message else result.answer)

  -- The answer over the admitted chunks
  unfoldable pub answer_of :
      Option (List EnrichedChunk) → String → Session → List ScoredChunk → Option String
  unfolding run_corrective_loop
  answer_of indexed question session admitted =
      if parts.selfrag_enabled
      then run_corrective_loop indexed question session
      else parts.generate 0 question admitted

  -- The response to a hit of the cache
  unfoldable pub warm_response : String → List EnrichedChunk → CachedResult Num → RagResponse
  warm_response question chunks hit = record {
    query = question;
    answer = hit.answer;
    architecture = parts.route question;
    citations =
        build_citations parts.setup.sha256 parts.max_quote_chars
          (map scored (keep (λ (c : EnrichedChunk). contains c.chunk_id hit.chunk_ids) chunks));
    access_denied = false;
    retrieved = length hit.chunk_ids;
    admitted = length hit.chunk_ids;
    blocked = 0;
    n_withheld = hit.n_withheld;
    governance_trail = [];
  }

  -- The response from the candidates, what is left of them and the answer
  unfoldable pub cold_response :
      String → List ScoredChunk → List ScoredChunk → List GovernanceDecision → String → RagResponse
  unfolding is_allow is_deny
  cold_response question candidates admitted trail answer = record {
    query = question;
    answer = answer;
    architecture = parts.route question;
    citations = build_citations parts.setup.sha256 parts.max_quote_chars admitted;
    access_denied = is_empty admitted && not (is_empty candidates);
    retrieved = length candidates;
    admitted = length admitted;
    blocked = count_if (λ (d : GovernanceDecision). is_deny d.decision) trail;
    n_withheld = count_if (λ (d : GovernanceDecision). not (is_allow d.decision)) trail;
    governance_trail = trail;
  }

  -- `self.cache.put(...)`, if there is a cache
  unfoldable pub remember :
      Clock Num
      → String
      → Session
      → List ScoredChunk
      → RagResponse
      → Option (Cache Num Vec)
      → Option (Cache Num Vec)
  remember clock question session admitted response none = none
  remember clock question session admitted response (some cache) = some (
      put parts.setup clock.created clock.evicted question session (map id_of admitted)
        response.answer response.n_withheld cache)

  -- `query` from the security filter on
  unfoldable pub respond :
      Clock Num
      → String
      → Session
      → RagPipeline Num Vec
      → List ScoredChunk
      → Option RagResponse × RagPipeline Num Vec
  unfolding audit_record answer_of cold_response remember
  respond clock question session st candidates =
      let (admitted, trail) = apply candidates session in
      let st' : RagPipeline Num Vec = record st {
        audit = st.audit ++ audit_record session question trail ∷ [];
      } in
      elim (answer_of st.indexed question session admitted) [
        | none ↦ (none, st')
        | some answer ↦
            let response = cold_response question candidates admitted trail answer in
            (
              some response,
              record st' { cache = remember clock question session admitted response st.cache },
            )
      ]

  -- `query` after a miss
  unfoldable pub cold :
      Clock Num → String → Session → RagPipeline Num Vec → Option RagResponse × RagPipeline Num Vec
  unfolding respond
  cold clock question session st = elim (retrieve_for_session st.indexed question session) [
    | none ↦ (none, st)
    | some candidates ↦ respond clock question session st candidates
  ]

  -- `query` from the lookup on, with the cache of the pipeline; an outer `none` is a KeyError.
  unfoldable pub look_up :
      Clock Num
      → String
      → Session
      → RagPipeline Num Vec
      → Option (Cache Num Vec)
      → Option RagResponse × RagPipeline Num Vec
  unfolding cold warm_response govern_fn
  look_up clock question session st none = cold clock question session st
  look_up clock question session st (some cache) =
      elim (get parts.setup (λ ids s. some (govern_fn st.chunks ids s)) clock.looked_up question
        session cache) [
          | none ↦ (none, st)
          | some (some hit, cache') ↦
              (some (warm_response question st.chunks hit), record st { cache = some cache' })
          | some (none, cache') ↦ cold clock question session (record st { cache = some cache' })
        ]

  -- `RAGPipeline.query`
  unfoldable pub query :
      Clock Num → String → Session → RagPipeline Num Vec → Option RagResponse × RagPipeline Num Vec
  unfolding look_up
  query clock question session st = look_up clock question session st st.cache
