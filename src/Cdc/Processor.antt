-- ===== src/Cdc/Processor.antt =====
-- src/rag_engine/cdc/processor.py: change events applied to a store and a cache. The store and
-- the cache are parameters: one world, whose calls may raise.
pub mod Attempts
pub mod Ordering
pub mod Converges
use enterprise_rag_engine.Prelude.{
  ℕ, zero, suc, ◌+◌, String, Bool, true, false, ◌&&◌, Option, none, some, List, [], ◌∷◌, ◌++◌,
  string_eq, leb, ltb, if◌then◌else◌,
}
use enterprise_rag_engine.Prelude.Dict.{Dict, lookup, insert}
use enterprise_rag_engine.Schemas.{Value}
use enterprise_rag_engine.Cdc.Events.{ChangeOp, ChunkChangeEvent, is_delete}

abbrev pub Row : Type 0
Row = Dict String Value

-- `_Store` and `_Cache`: each call returns whether it went through, and the world after it.
pub record Backend (World : Type 0) : Type 0 where
  pub upsert_chunk : Row → World → Bool × World
  pub delete_chunk : String → World → Bool × World
  pub invalidate_chunk : String → World → Bool × World

-- What is sent to the audit sink and to the tracer; neither can change the outcome.
pub data Notice : Type 0 where
  audit_applied audit_dropped : ChunkChangeEvent → ℕ → Notice
  span_applied span_dropped span_skipped : ChunkChangeEvent → Notice

pub record CdcState (World : Type 0) : Type 0 where
  pub world : World
  pub applied_version : Dict String ℕ
  pub notices : List Notice

-- `apply` returned True or False, or raised.
pub data Outcome : Type 0 where
  applied skipped raised : Outcome

-- The row that an event that is no deletion upserts.
unfoldable pub row_of : ChunkChangeEvent → Row
row_of event = insert "chunk_id" (Value.text event.chunk_id) event.payload

module _ {World : Type 0} (backend : Backend World) where
  unfoldable pub dispatch : ChunkChangeEvent → World → Bool × World
  unfolding row_of is_delete
  dispatch event w =
      let (done, w') =
        if is_delete event.op
        then backend.delete_chunk event.chunk_id w
        else backend.upsert_chunk (row_of event) w in
      if done then backend.invalidate_chunk event.chunk_id w' else (false, w')

  abbrev notify : List Notice → CdcState World → CdcState World
  notify ns st = record st { notices = st.notices ++ ns }

  -- The loop of `apply`, from attempt number `attempt`; `none` is fuel that ran out.
  unfoldable pub attempts :
      ℕ → ℕ → ℕ → ChunkChangeEvent → CdcState World → Option (Outcome × CdcState World)
  attempts zero max_retries attempt event st = none
  attempts (suc fuel) max_retries attempt event st =
      let (done, w') = dispatch event st.world in
      let again = attempts fuel max_retries (attempt + 1) event (record st { world = w' }) in
      if done
      then some (
        applied,
        notify (audit_applied event attempt ∷ span_applied event ∷ []) (record st {
          world = w';
          applied_version = insert event.chunk_id event.source_version st.applied_version;
        }),
      )
      else if ltb max_retries (attempt + 1)
      then some (
        raised,
        notify (audit_dropped event (attempt + 1) ∷ span_dropped event ∷ [])
            (record st { world = w' }),
      )
      else again

  -- `event.source_version <= last`, if there is a last version
  unfoldable pub is_stale : ChunkChangeEvent → CdcState World → Bool
  is_stale event st = elim (lookup event.chunk_id st.applied_version) [
    | none ↦ false
    | some last ↦ leb event.source_version last
  ]

  -- `CdcProcessor.apply`: the loop makes `max_retries + 1` rounds at most.
  unfoldable pub apply : ℕ → ChunkChangeEvent → CdcState World → Option (Outcome × CdcState World)
  unfolding is_stale
  apply max_retries event st =
      let tried = attempts (suc max_retries) max_retries 0 event st in
      if is_stale event st then some (skipped, notify (span_skipped event ∷ []) st) else tried

  -- A stream of events; one that raises is left to the dead letters, and the next is applied.
  unfoldable pub run : ℕ → List ChunkChangeEvent → CdcState World → Option (CdcState World)
  run max_retries [] st = some st
  run max_retries (e ∷ es) st = elim (apply max_retries e st) [
    | none ↦ none
    | some (r, st') ↦ run max_retries es st'
  ]
