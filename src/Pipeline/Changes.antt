-- ===== src/Pipeline/Changes.antt =====
-- src/rag_engine/pipeline.py: a change event applied to the live pipeline. What pydantic makes of
-- the values of a row is a parameter.
pub mod Propagates
pub mod Deleted
use enterprise_rag_engine.Prelude.{
  ℕ, String, Bool, true, false, not, Option, none, some, List, [], ◌∷◌, ◌++◌, string_eq, ◌==◌,
  if◌then◌else◌, keep,
}
use enterprise_rag_engine.Prelude.Dict.{lookup}
use enterprise_rag_engine.Prelude.Fallible.{◌>>=◌}
use enterprise_rag_engine.Schemas.{Value, Values, nil, cons, EnrichedChunk, SecurityContext}
use enterprise_rag_engine.Schemas.Roles.{security_context}
use enterprise_rag_engine.Cache.Semantic.{Cache, Setup, invalidate_chunk}
use enterprise_rag_engine.Cdc.Events.{ChunkChangeEvent, is_delete}
use enterprise_rag_engine.Cdc.Processor.{Row, Backend, CdcState, Outcome, applied, apply}
use enterprise_rag_engine.Pipeline.{RagPipeline}

-- How pydantic reads a value where a number that is not negative, a text or a list of texts is
-- declared; `none` is a ValidationError.
pub record Pydantic : Type 0 where
  pub to_level : Value → Option ℕ
  pub to_text : Value → Option String
  pub to_texts : Value → Option (List String)

module _ (pydantic : Pydantic) where
  -- `row.get(key, default)` where a text is declared
  unfoldable pub text_at : String → String → Row → Option String
  text_at key default row = elim (lookup key row) [
    | none ↦ some default
    | some v ↦ pydantic.to_text v
  ]

  -- `row.get("level", 0)`
  unfoldable pub level_at : Row → Option ℕ
  level_at row = elim (lookup "level" row) [ none ↦ some 0 | some v ↦ pydantic.to_level v ]

  -- `row.get(key, [])` where a list of roles is declared
  unfoldable pub roles_at : String → Row → Option (List String)
  roles_at key row = elim (lookup key row) [ none ↦ some [] | some v ↦ pydantic.to_texts v ]

  -- The security context that `upsert_chunk` builds
  unfoldable pub row_security : Row → Option SecurityContext
  unfolding roles_at level_at text_at
  row_security row = do
    allowed ← roles_at "allowed_roles" row
    level ← level_at row
    cls ← text_at "cls" "" row
    need_to_know ← roles_at "need_to_know" row
    security_context allowed level "UNASSIGNED" cls need_to_know

-- `EnrichedChunk(...)` in `upsert_chunk`, from fields that may be refused
unfoldable pub chunk_from :
    String → Option SecurityContext → Option String → Option String → Option EnrichedChunk
chunk_from cid (some security) (some asset) (some content) = some (record {
  chunk_id = cid;
  parent_doc_id = asset;
  parent_title = asset;
  content = content;
  contextual_anchor = "";
  security = security;
  ordinal = 0;
  modality = "text";
  metadata = record { partial_for = none; others = [] };
})
chunk_from cid _ _ _ = none

abbrev pub text_value : Option Value → Option String
text_value (some (Value.text s)) = some s
text_value _ = none

-- The chunk that `upsert_chunk` builds
unfoldable pub chunk_of_row : Pydantic → Row → Option EnrichedChunk
unfolding row_security chunk_from text_at
chunk_of_row pydantic row = text_value (lookup "chunk_id" row) >>= λ cid.
    chunk_from cid (row_security pydantic row) (text_at pydantic "asset_id" cid row)
      (text_at pydantic "text" "" row)

-- `[c for c in chunks if c.chunk_id != cid]`
unfoldable pub without : String → List EnrichedChunk → List EnrichedChunk
without cid = keep (λ (c : EnrichedChunk). not (c.chunk_id == cid))

module _ {Num Vec : Type 0} (pydantic : Pydantic) (setup : Setup Num Vec) where
  -- `_InMemStore.upsert_chunk`
  unfoldable pub upsert_chunk : Row → RagPipeline Num Vec → Bool × RagPipeline Num Vec
  unfolding chunk_of_row without
  upsert_chunk row st = elim (chunk_of_row pydantic row) [
    | none ↦ (false, st)
    | some c ↦ (true, record st { chunks = without c.chunk_id st.chunks ++ c ∷ [] })
  ]

  -- `_InMemStore.delete_chunk`
  unfoldable pub delete_chunk : String → RagPipeline Num Vec → Bool × RagPipeline Num Vec
  unfolding without
  delete_chunk cid st = (true, record st { chunks = without cid st.chunks })

  -- The call of the cache, or of `_NoCache`
  unfoldable pub drop_cached : String → Option (Cache Num Vec) → Option (Cache Num Vec)
  drop_cached cid none = none
  drop_cached cid (some cache) = some (invalidate_chunk setup cid cache)

  -- The store and the cache that `_cdc_processor` hands to the processor
  unfoldable pub adapters : Backend (RagPipeline Num Vec)
  unfolding upsert_chunk delete_chunk drop_cached
  adapters = record {
    upsert_chunk = upsert_chunk;
    delete_chunk = delete_chunk;
    invalidate_chunk = λ cid st. (true, record st { cache = drop_cached cid st.cache });
  }

  -- `self.retriever.index(self._chunks)`
  abbrev pub reindex : CdcState (RagPipeline Num Vec) → CdcState (RagPipeline Num Vec)
  reindex st = record st { world = record st.world { indexed = some st.world.chunks } }

  -- What `apply_change` does after the processor
  unfoldable pub settle :
      ChunkChangeEvent
      → Outcome × CdcState (RagPipeline Num Vec)
      → Outcome × CdcState (RagPipeline Num Vec)
  settle event (applied, st) = (applied, if is_delete event.op then st else reindex st)
  settle event (outcome, st) = (outcome, st)

  -- `apply_change`, with the processor that the pipeline keeps. An outer `none` does not occur.
  unfoldable pub apply_change :
      ℕ
      → ChunkChangeEvent
      → CdcState (RagPipeline Num Vec)
      → Option (Outcome × CdcState (RagPipeline Num Vec))
  unfolding adapters settle
  apply_change max_retries event st =
      apply adapters max_retries event st >>= λ result. some (settle event result)
