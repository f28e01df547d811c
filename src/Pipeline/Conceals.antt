-- ===== src/Pipeline/Conceals.antt =====
-- No response depends on withheld content that the retriever found.
use enterprise_rag_engine.Prelude.{
  String, ◌≡◌, refl, ap, ◌∙◌, Option, none, some, List, [], ◌∷◌, map, is_empty, length-map,
  Option-cases, inl, inr,
}
use enterprise_rag_engine.Prelude.Fallible.{◌>>=◌}
use enterprise_rag_engine.Schemas.{ScoredChunk, Session, EnrichedChunk}
use enterprise_rag_engine.Governance.Filter.{apply}
use enterprise_rag_engine.Governance.Filter.Conceals.{Secret, vary, apply-vary}
use enterprise_rag_engine.Cache.Semantic.{Cache, CachedResult, get}
use enterprise_rag_engine.Selfrag.Loop.Conceals.{filtered, filtered-vary, run-retrieving}
use enterprise_rag_engine.Pipeline.{
  Parts, RagPipeline, Clock, govern_fn, cold_response, remember, services, run_corrective_loop,
  answer_of, respond, cold, retrieve_for_session, look_up, query,
}

-- The same pipeline whose retrievers find, for the session `s`, chunks whose withheld content is
-- another one
abbrev pub varied :
    {Num Vec : Type 0} → Session → (ScoredChunk → Secret) → Parts Num Vec → Parts Num Vec
varied s f parts = record parts {
  vector_retriever = elim parts.vector_retriever [
    | none ↦ none
    | some retrieve ↦ some (λ q t. retrieve q t >>= λ found. some (map (vary s f) found))
  ];
  retrieve = λ chunks q. parts.retrieve chunks q >>= λ found. some (map (vary s f) found);
}

module _ {Num Vec : Type 0} (parts : Parts Num Vec) (s : Session) (f : ScoredChunk → Secret) where
  retrieve_for_session-varied :
      (indexed : Option (List EnrichedChunk)) (question : String)
      → retrieve_for_session (varied s f parts) indexed question s
        ≡ (retrieve_for_session parts indexed question s >>= λ found. some (map (vary s f) found))
  unfolding retrieve_for_session
  retrieve_for_session-varied indexed question = elim (Option-cases parts.vector_retriever) [
    | inl lexical ↦ rw (retrieve_for_session, lexical) (by_index indexed)
    | inr (retrieve, vector) ↦ rw (retrieve_for_session, vector) refl
  ]
    where
      by_index :
          (indexed : Option (List EnrichedChunk))
          → (elim indexed [
            | none ↦ none
            | some chunks ↦ parts.retrieve chunks question >>= λ found. some (map (vary s f) found)
          ])
            ≡ ((elim indexed as (λ _. Option (List ScoredChunk)) [
              | none ↦ none
              | some chunks ↦ parts.retrieve chunks question
            ])
                >>= λ found. some (map (vary s f) found))
      by_index none = refl
      by_index (some chunks) = refl

  run_corrective_loop-varied :
      (indexed : Option (List EnrichedChunk)) (question : String)
      → run_corrective_loop (varied s f parts) indexed question s
        ≡ run_corrective_loop parts indexed question s
  unfolding run_corrective_loop services
  run_corrective_loop-varied indexed question =
      rw
        (run-retrieving (services parts indexed)
          (λ i q t. retrieve_for_session (varied s f parts) indexed q t) s
          (λ i q.
            ap (filtered s) (retrieve_for_session-varied indexed q)
            ∙ filtered-vary s f (retrieve_for_session parts indexed q s))
          parts.selfrag_max_iterations question)
        refl

  answer_of-varied :
      (indexed : Option (List EnrichedChunk)) (question : String) (admitted : List ScoredChunk)
      → answer_of (varied s f parts) indexed question s admitted
        ≡ answer_of parts indexed question s admitted
  unfolding answer_of
  answer_of-varied indexed question admitted = rw (run_corrective_loop-varied indexed question) refl

  is_empty-map :
      (g : ScoredChunk → ScoredChunk) (cs : List ScoredChunk) → is_empty (map g cs) ≡ is_empty cs
  is_empty-map g [] = refl
  is_empty-map g (c ∷ cs) = refl

  respond-varied :
      (clock : Clock Num) (question : String) (st : RagPipeline Num Vec) (cs : List ScoredChunk)
      → respond (varied s f parts) clock question s st (map (vary s f) cs)
        ≡ respond parts clock question s st cs
  unfolding respond cold_response remember
  respond-varied clock question st cs =
      elim (Option-cases (answer_of parts st.indexed question s (apply cs s).0)) [
        | inl raised ↦
            rw
              (
                respond,
                apply-vary cs s f,
                answer_of-varied st.indexed question (apply cs s).0,
                raised,
              )
              (rw (apply-vary cs s f) refl)
        | inr (answer, done) ↦
            rw
              (
                respond,
                apply-vary cs s f,
                answer_of-varied st.indexed question (apply cs s).0,
                done,
              )
              (rw (apply-vary cs s f, length-map cs (vary s f), is_empty-map (vary s f) cs) refl)
      ]

  cold-varied :
      (clock : Clock Num) (question : String) (st : RagPipeline Num Vec)
      → cold (varied s f parts) clock question s st ≡ cold parts clock question s st
  unfolding cold
  cold-varied clock question st =
      elim (Option-cases (retrieve_for_session parts st.indexed question s)) [
        | inl raised ↦ rw (cold, retrieve_for_session-varied st.indexed question, raised) refl
        | inr (cs, found) ↦
            rw (cold, retrieve_for_session-varied st.indexed question, found)
              (respond-varied clock question st cs)
      ]

  -- A query answers the same, and leaves the same pipeline, if the retrievers find chunks with
  -- another content wherever the session may not see the content in full.
  pub query-varied :
      (clock : Clock Num) (question : String) (st : RagPipeline Num Vec)
      → query (varied s f parts) clock question s st ≡ query parts clock question s st
  unfolding query look_up
  query-varied clock question st = go st.cache
    where
      go :
          (o : Option (Cache Num Vec))
          → look_up (varied s f parts) clock question s st o ≡ look_up parts clock question s st o
      go none = cold-varied clock question st
      go (some cache) =
          looked
            (get parts.setup (λ ids s. some (govern_fn st.chunks ids s)) clock.looked_up question s
              cache)
            refl
        where
          looked :
              (o : Option (Option (CachedResult Num) × Cache Num Vec))
              → get parts.setup
                  (λ ids s. some (govern_fn st.chunks ids s))
                  clock.looked_up
                  question
                  s
                  cache
                ≡ o
              → look_up (varied s f parts) clock question s st (some cache)
                ≡ look_up parts clock question s st (some cache)
          looked none e = rw (look_up, e) refl
          looked (some (some hit, cache')) e = rw (look_up, e) refl
          looked (some (none, cache')) e =
              rw (look_up, e) (cold-varied clock question (record st { cache = some cache' }))
