-- ===== src/Retrieval/Modes.antt =====
-- src/rag_engine/retrieval/mode_base.py, graph_mode.py, structured_mode.py and lexical_mode.py:
-- the retrievers that query the store under the allowlist of the session. The queries of the store
-- are parameters.
use enterprise_rag_engine.Prelude.{String, Option, List, [], string_eq, if◌then◌else◌, is_empty}
use enterprise_rag_engine.Schemas.{EnrichedChunk, Session}
use enterprise_rag_engine.Governance.Allowlist.{AllowlistBackend, authorized_chunk_ids}

-- `ModeStore`: queries under an allowlist, whose rows are of some type
pub record ModeStore (Row : Type 0) : Type 0 where
  pub graph_neighbors : String → List String → List Row
  pub structured_rows : String → List String → List Row
  pub fulltext_search : String → List String → List Row

unfoldable pub session_allowlist :
    Session → List EnrichedChunk → Option AllowlistBackend → List String
session_allowlist session chunks backend = authorized_chunk_ids session chunks backend

module _ {Row : Type 0} where
  -- `retrieve_for_session` of a mode, from the query of the store
  unfoldable pub query_allowed :
      (String → List String → List Row)
      → String
      → Session
      → List EnrichedChunk
      → Option AllowlistBackend
      → List Row
  unfolding session_allowlist
  query_allowed query arg session chunks backend =
      let allow = session_allowlist session chunks backend in
      if is_empty allow then [] else query arg allow

  unfoldable pub graph_retrieve :
      ModeStore Row → String → Session → List EnrichedChunk → Option AllowlistBackend → List Row
  unfolding query_allowed
  graph_retrieve store node_chunk_id = query_allowed store.graph_neighbors node_chunk_id

  unfoldable pub structured_retrieve :
      ModeStore Row → String → Session → List EnrichedChunk → Option AllowlistBackend → List Row
  unfolding query_allowed
  structured_retrieve store asset_id = query_allowed store.structured_rows asset_id

  unfoldable pub lexical_retrieve :
      ModeStore Row → String → Session → List EnrichedChunk → Option AllowlistBackend → List Row
  unfolding query_allowed
  lexical_retrieve store query = query_allowed store.fulltext_search query
