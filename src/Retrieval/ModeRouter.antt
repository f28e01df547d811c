-- ===== src/Retrieval/ModeRouter.antt =====
-- src/rag_engine/retrieval/mode_router.py: the modes under the allowlist backend that the settings
-- name. The remote backends are parameters: `none` where their endpoints are not set.
pub mod Readable
use enterprise_rag_engine.Prelude.{
  String, ◌≡◌, ap, Option, none, some, List, [], ◌∷◌, ◌==◌, string_eq, if◌then◌else◌, All,
}
use enterprise_rag_engine.Schemas.{EnrichedChunk, Session}
use enterprise_rag_engine.Governance.Allowlist.{AllowlistBackend, in_process_ids}
use enterprise_rag_engine.Governance.Rebac.{Facts, FactStore, facts_of, rebac_ids}
use enterprise_rag_engine.Governance.Rebac.Parity.{IsGoverned, Holds, rebac_ids-parity}
use enterprise_rag_engine.Retrieval.Modes.{ModeStore}

-- A backend: the in-process one, the local engine with its facts, or a remote one
pub data Backend : Type 0 where
  in_process : Backend
  local_rebac : FactStore → Backend
  remote : AllowlistBackend → Backend

-- `build_allowlist_backend`; `none` is a ValueError, or the KeyError of a setting that is missing.
unfoldable pub build_allowlist_backend :
    Option AllowlistBackend → Option AllowlistBackend → String → Option Backend
build_allowlist_backend spicedb oso name =
    if name == "in_process"
    then some Backend.in_process
    else if name == "local_rebac"
    then some (Backend.local_rebac [])
    else if name == "spicedb"
    then (elim spicedb [ none ↦ none | some b ↦ some (Backend.remote b) ])
    else if name == "oso"
    then (elim oso [ none ↦ none | some b ↦ some (Backend.remote b) ])
    else none

-- `backend.authorized_ids`: the backend that is left, and the ids unless it raised
unfoldable pub authorized_by :
    Backend → Session → List EnrichedChunk → Backend × Option (List String)
authorized_by Backend.in_process s chunks = (Backend.in_process, some (in_process_ids s chunks))
authorized_by (Backend.local_rebac store) s chunks =
    let (after, ids) = rebac_ids store s chunks in (Backend.local_rebac after, ids)
authorized_by (Backend.remote b) s chunks = (Backend.remote b, some (b.authorized_ids s chunks))

module _ {Row : Type 0} where
  -- The rows of a query under the ids that a backend returned
  abbrev pub rows_under :
      (String → List String → List Row) → String → Option (List String) → Option (List Row)
  rows_under query arg none = none
  rows_under query arg (some []) = some []
  rows_under query arg (some (id ∷ ids)) = some (query arg (id ∷ ids))

  -- A mode under a backend, from the query of the store
  unfoldable pub route_query :
      (String → List String → List Row)
      → String
      → Session
      → List EnrichedChunk
      → Backend
      → Backend × Option (List Row)
  unfolding authorized_by
  route_query query arg s chunks backend =
      let (after, ids) = authorized_by backend s chunks in (after, rows_under query arg ids)

  -- `ModeRouter.graph_neighbors`
  unfoldable pub route_graph_neighbors :
      ModeStore Row → String → Session → List EnrichedChunk → Backend → Backend × Option (List Row)
  unfolding route_query
  route_graph_neighbors store = route_query store.graph_neighbors

  -- `ModeRouter.structured_rows`
  unfoldable pub route_structured_rows :
      ModeStore Row → String → Session → List EnrichedChunk → Backend → Backend × Option (List Row)
  unfolding route_query
  route_structured_rows store = route_query store.structured_rows

  -- `ModeRouter.lexical_search`
  unfoldable pub route_lexical_search :
      ModeStore Row → String → Session → List EnrichedChunk → Backend → Backend × Option (List Row)
  unfolding route_query
  route_lexical_search store = route_query store.fulltext_search

  -- Under the local engine a mode returns the rows that it returns under the in-process backend, if
  -- the chunks have recognised classes and each id has one set of facts, which the engine holds or
  -- does not have yet.
  pub route_query-local :
      (query : String → List String → List Row) (arg : String) (view : String → Facts) (s : Session)
      (chunks : List EnrichedChunk) (store : FactStore)
      → All (λ c. IsGoverned c s × (facts_of c ≡ view c.chunk_id)) chunks
      → Holds view store
      → (route_query query arg s chunks (Backend.local_rebac store)).1
        ≡ (route_query query arg s chunks Backend.in_process).1
  unfolding route_query authorized_by
  route_query-local query arg view s chunks store good holds =
      ap (rows_under query arg) (rebac_ids-parity view s chunks store good holds)
