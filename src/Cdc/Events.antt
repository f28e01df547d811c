-- ===== src/Cdc/Events.antt =====
-- src/rag_engine/cdc/events.py: a change of one chunk. A version is a natural number, as the
-- constructor refuses a negative one.
use enterprise_rag_engine.Prelude.{ℕ, String, Bool, true, false}
use enterprise_rag_engine.Prelude.Dict.{Dict}
use enterprise_rag_engine.Schemas.{Value}

pub data ChangeOp : Type 0 where
  insert update delete reclassify : ChangeOp

pub record ChunkChangeEvent : Type 0 where
  pub op : ChangeOp
  pub chunk_id : String
  pub source_version : ℕ
  pub payload : Dict String Value

-- `event.op is ChangeOp.DELETE`
unfoldable pub is_delete : ChangeOp → Bool
is_delete ChangeOp.delete = true
is_delete _ = false
