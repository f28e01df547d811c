-- ===== src/Retrieval/Hybrid.antt =====
-- src/rag_engine/retrieval/hybrid.py: the lexical and the dense search, fused and reranked. The
-- embedder, the vector store, the lexical index and the reranker are parameters.
use enterprise_rag_engine.Prelude.{
  ℕ, String, ◌≡◌, Bool, true, Option, none, some, List, [], ◌∷◌, map, if◌then◌else◌, take, All,
  All-take,
}
use enterprise_rag_engine.Prelude.Fallible.{◌>>=◌}
use enterprise_rag_engine.Schemas.{EnrichedChunk, ScoredChunk, embedding_text}
use enterprise_rag_engine.Retrieval.Fusion.{Arithmetic, reciprocal_rank_fusion}
use enterprise_rag_engine.Retrieval.Fusion.Exact.{reciprocal_rank_fusion_lem}

pub record HybridParts (Vec Store Index : Type 0) : Type 0 where
  pub math : Arithmetic
  pub embed : List String → List Vec
  pub store_index : List EnrichedChunk → List Vec → Store → Store
  pub store_search : Store → Vec → ℕ → List ScoredChunk
  pub lexical_index : List EnrichedChunk → Index → Index
  pub lexical_search : Index → String → ℕ → List ScoredChunk
  pub rerank : String → List ScoredChunk → ℕ → List ScoredChunk
  pub dense_top_k : ℕ
  pub lexical_top_k : ℕ
  pub rerank_top_k : ℕ
  pub final_top_k : ℕ
  pub rrf_k : ℕ

pub record HybridRetriever (Store Index : Type 0) : Type 0 where
  pub vector_store : Store
  pub lexical : Index
  pub indexed : Bool

abbrev pub first : {A : Type 0} → List A → Option A
first [] = none
first (x ∷ xs) = some x

module _ {Vec Store Index : Type 0} (parts : HybridParts Vec Store Index) where
  -- `HybridRetriever.index`
  unfoldable pub hybrid_index :
      List EnrichedChunk → HybridRetriever Store Index → HybridRetriever Store Index
  unfolding embedding_text
  hybrid_index chunks r = record {
    vector_store =
        parts.store_index chunks (parts.embed (map embedding_text chunks)) r.vector_store;
    lexical = parts.lexical_index chunks r.lexical;
    indexed = true;
  }

  -- `retrieve`, from the vector of the query on
  unfoldable pub retrieve_by :
      HybridRetriever Store Index → String → Vec → Option (List ScoredChunk)
  unfolding reciprocal_rank_fusion
  retrieve_by r query q_vec =
      let dense_hits = parts.store_search r.vector_store q_vec parts.dense_top_k in
      let lexical_hits = parts.lexical_search r.lexical query parts.lexical_top_k in
      reciprocal_rank_fusion parts.math lexical_hits dense_hits parts.rrf_k >>= λ fused.
      some (parts.rerank query (take parts.rerank_top_k fused) parts.final_top_k)

  -- `HybridRetriever.retrieve`; `none` is the RuntimeError, or the IndexError of an embedder that
  -- returns no vector.
  unfoldable pub hybrid_retrieve : HybridRetriever Store Index → String → Option (List ScoredChunk)
  unfolding retrieve_by
  hybrid_retrieve r query =
      if r.indexed then first (parts.embed (query ∷ [])) >>= retrieve_by r query else none

  -- With an embedder that returns a vector, a retriever that was given an index retrieves, and
  -- whatever holds of the chunks of both searches, and is kept by the reranker, holds of what is
  -- retrieved.
  pub hybrid_retrieve-All :
      (P : EnrichedChunk → Type 0) (chunks : List EnrichedChunk) (r : HybridRetriever Store Index)
      (query : String) (v : Vec)
      → first (parts.embed (query ∷ [])) ≡ some v
      → All
          (λ sc. P sc.chunk)
          (parts.lexical_search (hybrid_index chunks r).lexical query parts.lexical_top_k)
      → All
          (λ sc. P sc.chunk)
          (parts.store_search (hybrid_index chunks r).vector_store v parts.dense_top_k)
      → ((cs : List ScoredChunk)
          → All (λ sc. P sc.chunk) cs
          → All (λ sc. P sc.chunk) (parts.rerank query cs parts.final_top_k))
      → (out : List ScoredChunk) × (hybrid_retrieve (hybrid_index chunks r) query ≡ some out)
        × All (λ sc. P sc.chunk) out
  unfolding hybrid_retrieve retrieve_by hybrid_index
  hybrid_retrieve-All P chunks r query v embedded lexical dense keeps =
      let (fused, e, _, _, all) =
        reciprocal_rank_fusion_lem parts.math P _ _ parts.rrf_k lexical dense in
      (
        parts.rerank query (take parts.rerank_top_k fused) parts.final_top_k,
        rw embedded (rw (reciprocal_rank_fusion, e)),
        keeps _ (All-take (λ sc. P sc.chunk) parts.rerank_top_k fused all),
      )
