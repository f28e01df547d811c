-- ===== src/Retrieval/TurboVec.antt =====
-- src/rag_engine/retrieval/turbovec_index.py and turbovec_retriever.py. The vector index of the
-- turbovec package, the embedder, the source of the chunks and the reranker are parameters.
pub mod Admitted
use enterprise_rag_engine.Prelude.{
  ℕ, ◌≤◌, String, ◌≡◌, Bool, true, false, Option, none, some, List, [], ◌∷◌, string_eq, leb,
  if◌then◌else◌, length, is_empty,
}
use enterprise_rag_engine.Prelude.Dict.{lookup}
use enterprise_rag_engine.Schemas.{Float, EnrichedChunk, Session, ScoredChunk}
use enterprise_rag_engine.Governance.Allowlist.{authorized_chunk_ids}
use enterprise_rag_engine.Retrieval.IdMap.{IdTable, to_chunk_id}

pub record VectorHit : Type 0 where
  pub chunk_id : String
  pub score : Float

-- `IdMapIndex.search` for a query, a number of hits and an allowlist of numbers, if there is one
abbrev pub AnnSearch : Type 0 → Type 0
AnnSearch Query = Query → ℕ → Option (List ℕ) → List (Float × ℕ)

-- `[to_u64(c) for c in allowlist if contains(c)]`: `to_u64` of an id in the map changes nothing.
unfoldable pub allowed_numbers : IdTable → List String → List ℕ
allowed_numbers m [] = []
allowed_numbers m (id ∷ ids) =
    let rest = allowed_numbers m ids in elim (lookup id m.fwd) [ none ↦ rest | some u ↦ u ∷ rest ]

-- The hits whose number is in the map
unfoldable pub resolve : IdTable → List (Float × ℕ) → List VectorHit
unfolding to_chunk_id
resolve m [] = []
resolve m ((score, u) ∷ found) =
    let rest = resolve m found in
    elim (to_chunk_id u m) [
      | none ↦ rest
      | some id ↦ record { chunk_id = id; score = score } ∷ rest
    ]

abbrev min : ℕ → ℕ → ℕ
min a b = if leb a b then a else b

module _ {Query : Type 0} (ann : AnnSearch Query) where
  -- `TurboVecIndex.search`
  unfoldable pub search : IdTable → Query → ℕ → Option (List String) → List VectorHit
  unfolding allowed_numbers resolve
  search m q k none = resolve m (ann q (min k (length m.fwd)) none)
  search m q k (some ids) =
      let allow = allowed_numbers m ids in
      if is_empty allow then [] else resolve m (ann q (min k (length m.fwd)) (some allow))

-- The candidates of the hits that the source has
unfoldable pub hydrate : (String → Option EnrichedChunk) → List VectorHit → List ScoredChunk
hydrate get_chunk [] = []
hydrate get_chunk (hit ∷ hits) =
    let rest = hydrate get_chunk hits in
    elim (get_chunk hit.chunk_id) [
      | none ↦ rest
      | some c ↦
          record { chunk = c; score = hit.score; lexical_rank = none; dense_rank = none } ∷ rest
    ]

-- What the retriever is built with; `vector_coarse_k` and `final_top_k` are of the configuration.
pub record Parts (Query : Type 0) : Type 0 where
  pub ann : AnnSearch Query
  pub id_map : IdTable
  pub embed : String → Query
  pub get_chunk : String → Option EnrichedChunk
  pub all_chunk_security : List EnrichedChunk
  pub rerank : String → List ScoredChunk → ℕ → List ScoredChunk
  pub vector_coarse_k : ℕ
  pub final_top_k : ℕ

-- `TurboVecRetriever.retrieve_for_session`
unfoldable pub retrieve_for_session :
    {Query : Type 0} → Parts Query → String → Session → List ScoredChunk
unfolding search hydrate
retrieve_for_session parts query session =
    let allow = authorized_chunk_ids session parts.all_chunk_security none in
    if is_empty allow
    then []
    else let coarse =
        search parts.ann parts.id_map (parts.embed query) parts.vector_coarse_k (some allow) in
      parts.rerank query (hydrate parts.get_chunk coarse) parts.final_top_k
