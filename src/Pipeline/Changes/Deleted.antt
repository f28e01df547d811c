-- ===== src/Pipeline/Changes/Deleted.antt =====
-- A deleted chunk and the index of the retriever.
use enterprise_rag_engine.Prelude.{
  ℕ, String, ◌≡◌, refl, sym, ap, ◌∙◌, true, false, Option, none, some, List, Option-cases, inl, inr,
}
use enterprise_rag_engine.Prelude.Fallible.{◌>>=◌}
use enterprise_rag_engine.Schemas.{EnrichedChunk, RagResponse, Session}
use enterprise_rag_engine.Governance.Filter.{apply}
use enterprise_rag_engine.Cdc.Events.{ChunkChangeEvent, is_delete}
use enterprise_rag_engine.Cdc.Processor.{CdcState, applied, is_stale}
use enterprise_rag_engine.Pipeline.{
  Parts, RagPipeline, Clock, retrieve_for_session, answer_of, cold_response, respond, cold, look_up,
  query,
}
use enterprise_rag_engine.Pipeline.Changes.{
  Pydantic, without, drop_cached, adapters, settle, apply_change,
}
use enterprise_rag_engine.Pipeline.Changes.Propagates.{
  after_applied, world_deleted, apply_change-applied, dispatch_delete,
}

module _ {Num Vec : Type 0} (pydantic : Pydantic) (parts : Parts Num Vec) (clock : Clock Num)
    (question : String) (s : Session) where
  -- The response of a query after a miss, from the index alone
  abbrev response_from : Option (List EnrichedChunk) → Option RagResponse
  response_from indexed = retrieve_for_session parts indexed question s >>= λ cs.
      answer_of parts indexed question s (apply cs s).0 >>= λ answer.
      some (cold_response parts question cs (apply cs s).0 (apply cs s).1 answer)

  cold-response_from :
      (st : RagPipeline Num Vec) → (cold parts clock question s st).0 ≡ response_from st.indexed
  unfolding cold respond
  cold-response_from st = elim (Option-cases (retrieve_for_session parts st.indexed question s)) [
    | inl raised ↦ rw (cold, raised) refl
    | inr (cs, found) ↦ elim (Option-cases (answer_of parts st.indexed question s (apply cs s).0)) [
      | inl raised ↦ rw (cold, found) (rw (respond, raised) refl)
      | inr (answer, done) ↦ rw (cold, found) (rw (respond, done) refl)
    ]
  ]

  query-response_from :
      (st : RagPipeline Num Vec)
      → st.cache ≡ none
      → (query parts clock question s st).0 ≡ response_from st.indexed
  unfolding query look_up
  query-response_from st no_cache =
      ap (λ o. (look_up parts clock question s st o).0) no_cache ∙ cold-response_from st

  -- In a pipeline without a cache, a deletion that is applied takes the chunk from the pipeline's
  -- list, and every query is answered as before the deletion, whatever it found.
  pub apply_change_deleted :
      (max_retries : ℕ) (e : ChunkChangeEvent) (st : CdcState (RagPipeline Num Vec))
      → is_delete e.op ≡ true
      → is_stale (adapters pydantic parts.setup) e st ≡ false
      → st.world.cache ≡ none
      → (st' : CdcState (RagPipeline Num Vec)) × (apply_change pydantic parts.setup max_retries e st
          ≡ some (applied, st'))
        × (st'.world.chunks ≡ without e.chunk_id st.world.chunks)
        × ((query parts clock question s st'.world).0 ≡ (query parts clock question s st.world).0)
  unfolding settle drop_cached
  apply_change_deleted max_retries e st gone fresh no_cache = (
    after_applied pydantic parts.setup e st (world_deleted pydantic parts.setup e st.world),
    apply_change-applied pydantic parts.setup max_retries e st _ fresh
          (dispatch_delete pydantic parts.setup e st.world gone)
        ∙ rw gone refl,
    refl,
    query-response_from (world_deleted pydantic parts.setup e st.world)
          (ap (drop_cached pydantic parts.setup e.chunk_id) no_cache)
        ∙ sym (query-response_from st.world no_cache),
  )
