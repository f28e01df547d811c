-- ===== src/Pipeline/Changes/Propagates.antt =====
-- What a change event leaves of the chunks, the index and the cache.
use enterprise_rag_engine.Prelude.{
  ℕ, zero, suc, ◌+◌, ◌<◌, String, ◌≡◌, refl, ap, ◌∙◌, Bool, true, false, not, Option, none, some,
  [], ◌∷◌, ◌++◌, string_eq, arith, ltb, if◌then◌else◌, contains, keep-All, All, Bool-cases,
  Option-cases, ◌⊎◌, inl, inr,
}
use enterprise_rag_engine.Prelude.Dict.{lookup, insert, lookup-insert}
use enterprise_rag_engine.Schemas.{Value, SecurityContext, EnrichedChunk}
use enterprise_rag_engine.Cache.Semantic.{Cache, Entry, Setup, invalidate_chunk}
use enterprise_rag_engine.Cdc.Events.{ChunkChangeEvent, is_delete}
use enterprise_rag_engine.Cdc.Processor.{
  Row, CdcState, Outcome, applied, skipped, raised, audit_applied, audit_dropped, span_applied,
  span_dropped, span_skipped, row_of, dispatch, attempts, is_stale, apply,
}
use enterprise_rag_engine.Pipeline.{RagPipeline}
use enterprise_rag_engine.Pipeline.Changes.{
  Pydantic, chunk_from, chunk_of_row, without, upsert_chunk, delete_chunk, drop_cached, adapters,
  reindex, settle, apply_change,
}

lookup-row_of-chunk_id :
    (e : ChunkChangeEvent) → lookup "chunk_id" (row_of e) ≡ some (Value.text e.chunk_id)
unfolding row_of
lookup-row_of-chunk_id e = lookup-insert "chunk_id" "chunk_id" (Value.text e.chunk_id) e.payload

chunk_from-chunk_id :
    (cid : String) (sec : Option SecurityContext) (asset content : Option String)
    (c : EnrichedChunk)
    → chunk_from cid sec asset content ≡ some c
    → c.chunk_id ≡ cid
unfolding chunk_from
chunk_from-chunk_id cid none asset content c h = cc h
chunk_from-chunk_id cid (some sec) none content c h = cc h
chunk_from-chunk_id cid (some sec) (some asset) none c h = cc h
chunk_from-chunk_id cid (some sec) (some asset) (some content) c h = ground (arith, h)

-- The chunk that is built from an event has the event's id.
chunk_of_row-chunk_id :
    (pydantic : Pydantic) (e : ChunkChangeEvent) (c : EnrichedChunk)
    → chunk_of_row pydantic (row_of e) ≡ some c
    → c.chunk_id ≡ e.chunk_id
unfolding chunk_of_row
chunk_of_row-chunk_id pydantic e c h =
    chunk_from-chunk_id e.chunk_id _ _ _ c (rw (chunk_of_row, lookup-row_of-chunk_id e) at h)

module _ {Num Vec : Type 0} (pydantic : Pydantic) (setup : Setup Num Vec) where
  -- No entry of the cache rests on the chunk.
  abbrev pub IsDropped : String → Option (Cache Num Vec) → Type 0
  IsDropped cid none = Unit
  IsDropped cid (some cache) =
      All (λ (x : String × Entry Num Vec). not (contains cid x.1.chunk_ids) ≡ true) cache.entries

  drop_cached-IsDropped :
      (cid : String) (o : Option (Cache Num Vec)) → IsDropped cid (drop_cached pydantic setup cid o)
  unfolding drop_cached invalidate_chunk
  drop_cached-IsDropped cid none = tt
  drop_cached-IsDropped cid (some cache) = keep-All _ cache.entries

  -- What an event leaves, by what `apply_change` returns
  abbrev pub Changes :
      ChunkChangeEvent
      → CdcState (RagPipeline Num Vec)
      → Outcome
      → CdcState (RagPipeline Num Vec)
      → Type 0
  Changes e st skipped st' =
      (is_stale (adapters pydantic setup) e st ≡ true)
      × (st'.world ≡ st.world)
      × (st'.applied_version ≡ st.applied_version)
  Changes e st raised st' =
      (is_stale (adapters pydantic setup) e st ≡ false)
      × (is_delete e.op ≡ false)
      × (chunk_of_row pydantic (row_of e) ≡ none)
      × (st'.world ≡ st.world)
      × (st'.applied_version ≡ st.applied_version)
  Changes e st applied st' =
      (is_stale (adapters pydantic setup) e st ≡ false)
      × (st'.applied_version ≡ insert e.chunk_id e.source_version st.applied_version)
      × IsDropped e.chunk_id st'.world.cache
      × (((is_delete e.op ≡ true)
            × (st'.world.chunks ≡ without e.chunk_id st.world.chunks)
            × (st'.world.indexed ≡ st.world.indexed))
          ⊎ ((c : EnrichedChunk) × (is_delete e.op ≡ false)
              × (chunk_of_row pydantic (row_of e) ≡ some c)
              × (c.chunk_id ≡ e.chunk_id)
              × (st'.world.chunks ≡ without e.chunk_id st.world.chunks ++ c ∷ [])
              × (st'.world.indexed ≡ some st'.world.chunks)))

  attempts-raised :
      (fuel max_retries attempt : ℕ) (e : ChunkChangeEvent) (st : CdcState (RagPipeline Num Vec))
      → attempt + fuel ≡ max_retries + 1
      → 0 < fuel
      → dispatch (adapters pydantic setup) e st.world ≡ (false, st.world)
      → (st' : CdcState (RagPipeline Num Vec)) × (attempts
            (adapters pydantic setup)
            fuel
            max_retries
            attempt
            e
            st
          ≡ some (raised, st'))
        × (st'.world ≡ st.world)
        × (st'.applied_version ≡ st.applied_version)
  unfolding attempts
  attempts-raised zero max_retries attempt e st sum pos failed = absurd (omega arith)
  attempts-raised (suc fuel) max_retries attempt e st sum pos failed =
      elim (Bool-cases (ltb max_retries (attempt + 1))) [
        | inl last ↦ (
          record st { notices = st.notices ++ audit_dropped e (attempt + 1) ∷ span_dropped e ∷ [] },
          rw (failed, last),
          refl,
          refl,
        )
        | inr more ↦
            let (st', done, same, versions) =
              attempts-raised fuel max_retries (attempt + 1) e st (omega arith)
                (ground (arith, more, sum)) failed in
            (st', rw (failed, more) done, same, versions)
      ]

  -- The state after an event whose dispatch went through
  abbrev pub after_applied :
      ChunkChangeEvent
      → CdcState (RagPipeline Num Vec)
      → RagPipeline Num Vec
      → CdcState (RagPipeline Num Vec)
  after_applied e st w = record st {
    world = w;
    applied_version = insert e.chunk_id e.source_version st.applied_version;
    notices = st.notices ++ audit_applied e 0 ∷ span_applied e ∷ [];
  }

  pub apply_change-applied :
      (max_retries : ℕ) (e : ChunkChangeEvent) (st : CdcState (RagPipeline Num Vec))
      (w : RagPipeline Num Vec)
      → is_stale (adapters pydantic setup) e st ≡ false
      → dispatch (adapters pydantic setup) e st.world ≡ (true, w)
      → apply_change pydantic setup max_retries e st
        ≡ some (settle pydantic setup e (applied, after_applied e st w))
  unfolding apply_change apply attempts
  apply_change-applied max_retries e st w fresh done = rw (fresh, done) refl

  apply_change-raised :
      (max_retries : ℕ) (e : ChunkChangeEvent) (st : CdcState (RagPipeline Num Vec))
      → is_stale (adapters pydantic setup) e st ≡ false
      → dispatch (adapters pydantic setup) e st.world ≡ (false, st.world)
      → (st' : CdcState (RagPipeline Num Vec)) × (apply_change pydantic setup max_retries e st
          ≡ some (raised, st'))
        × (st'.world ≡ st.world)
        × (st'.applied_version ≡ st.applied_version)
  unfolding apply_change apply settle
  apply_change-raised max_retries e st fresh failed =
      let (st', done, same, versions) =
        attempts-raised (suc max_retries) max_retries 0 e st (omega arith) (omega arith) failed in
      (st', rw (fresh, done) refl, same, versions)

  abbrev pub world_deleted : ChunkChangeEvent → RagPipeline Num Vec → RagPipeline Num Vec
  world_deleted e w = record w {
    chunks = without e.chunk_id w.chunks;
    cache = drop_cached pydantic setup e.chunk_id w.cache;
  }

  abbrev world_upserted :
      ChunkChangeEvent → EnrichedChunk → RagPipeline Num Vec → RagPipeline Num Vec
  world_upserted e c w = record w {
    chunks = without c.chunk_id w.chunks ++ c ∷ [];
    cache = drop_cached pydantic setup e.chunk_id w.cache;
  }

  pub dispatch_delete :
      (e : ChunkChangeEvent) (w : RagPipeline Num Vec)
      → is_delete e.op ≡ true
      → dispatch (adapters pydantic setup) e w ≡ (true, world_deleted e w)
  unfolding dispatch adapters delete_chunk
  dispatch_delete e w gone = rw gone refl

  -- What `_dispatch` does after the call of the store
  abbrev invalidated : ChunkChangeEvent → Bool × RagPipeline Num Vec → Bool × RagPipeline Num Vec
  invalidated e (done, w) =
      if done
      then (true, record w { cache = drop_cached pydantic setup e.chunk_id w.cache })
      else (false, w)

  dispatch_upsert :
      (e : ChunkChangeEvent) (w : RagPipeline Num Vec)
      → is_delete e.op ≡ false
      → dispatch (adapters pydantic setup) e w
        ≡ invalidated e (upsert_chunk pydantic setup (row_of e) w)
  unfolding dispatch adapters
  dispatch_upsert e w kept = rw kept refl

  upsert_chunk-built :
      (row : Row) (w : RagPipeline Num Vec) (c : EnrichedChunk)
      → chunk_of_row pydantic row ≡ some c
      → upsert_chunk pydantic setup row w
        ≡ (true, record w { chunks = without c.chunk_id w.chunks ++ c ∷ [] })
  unfolding upsert_chunk
  upsert_chunk-built row w c built = rw (upsert_chunk, built)

  upsert_chunk-refused :
      (row : Row) (w : RagPipeline Num Vec)
      → chunk_of_row pydantic row ≡ none
      → upsert_chunk pydantic setup row w ≡ (false, w)
  unfolding upsert_chunk
  upsert_chunk-refused row w refused = rw (upsert_chunk, refused)

  abbrev Outcomes : ℕ → ChunkChangeEvent → CdcState (RagPipeline Num Vec) → Type 0
  Outcomes max_retries e st =
      (r : Outcome) × (st' : CdcState (RagPipeline Num Vec)) × (apply_change pydantic setup
          max_retries e st
        ≡ some (r, st'))
      × Changes e st r st'

  fresh-Changes :
      (max_retries : ℕ) (e : ChunkChangeEvent) (st : CdcState (RagPipeline Num Vec))
      → is_stale (adapters pydantic setup) e st ≡ false
      → Outcomes max_retries e st
  unfolding settle
  fresh-Changes max_retries e st fresh = elim (Bool-cases (is_delete e.op)) [
    | inl gone ↦ (
      applied,
      after_applied e st (world_deleted e st.world),
      apply_change-applied max_retries e st _ fresh (dispatch_delete e st.world gone)
          ∙ rw gone refl,
      (fresh, refl, drop_cached-IsDropped e.chunk_id st.world.cache, inl (gone, refl, refl)),
    )
    | inr kept ↦ elim (Option-cases (chunk_of_row pydantic (row_of e))) [
      | inl refused ↦
          let (st', done, same, versions) = apply_change-raised max_retries e st fresh (
            dispatch_upsert e st.world kept
            ∙ ap (invalidated e) (upsert_chunk-refused (row_of e) st.world refused)) in
          (raised, st', done, (fresh, kept, refused, same, versions))
      | inr (c, built) ↦ (
        applied,
        reindex pydantic setup (after_applied e st (world_upserted e c st.world)),
        apply_change-applied max_retries e st _ fresh (
              dispatch_upsert e st.world kept
              ∙ ap (invalidated e) (upsert_chunk-built (row_of e) st.world c built))
            ∙ rw kept refl,
        (
          fresh,
          refl,
          drop_cached-IsDropped e.chunk_id st.world.cache,
          inr (
            c,
            kept,
            built,
            chunk_of_row-chunk_id pydantic e c built,
            ap (λ id. without id st.world.chunks ++ c ∷ [])
                (chunk_of_row-chunk_id pydantic e c built),
            refl,
          ),
        ),
      )
    ]
  ]

  -- `apply_change` always ends. A stale event changes nothing; one whose row is refused is raised
  -- and changes neither the pipeline nor the versions. Any other event is applied: its version is
  -- recorded, no cache entry rests on its chunk afterwards, and the old chunk is gone; the new one
  -- is added and everything is indexed again, unless the event is a deletion, which leaves the index
  -- as it was.
  pub apply_change-Changes :
      (max_retries : ℕ) (e : ChunkChangeEvent) (st : CdcState (RagPipeline Num Vec))
      → (r : Outcome) × (st' : CdcState (RagPipeline Num Vec)) × (apply_change pydantic setup
            max_retries e st
          ≡ some (r, st'))
        × Changes e st r st'
  unfolding apply_change apply settle
  apply_change-Changes max_retries e st =
      elim (Bool-cases (is_stale (adapters pydantic setup) e st)) [
        | inr fresh ↦ fresh-Changes max_retries e st fresh
        | inl stale ↦ (
          skipped,
          record st { notices = st.notices ++ span_skipped e ∷ [] },
          rw stale refl,
          (stale, refl, refl),
        )
      ]
