-- ===== src/Multimodal/Payload.antt =====
-- src/rag_engine/multimodal/payload.py: what a withheld chunk keeps of its metadata.
use enterprise_rag_engine.Prelude.{
  String, Bool, true, false, ◌&&◌, Option, none, some, List, [], ◌∷◌, string_eq, contains, keep,
}
use enterprise_rag_engine.Prelude.Dict.{insert, lookup, erase}
use enterprise_rag_engine.Schemas.{Value, Metadata}

abbrev pub payload_key : String
payload_key = "mm_payload"

unfoldable pub attach_payload : Metadata → Value → Metadata
attach_payload m payload = record m { others = insert payload_key payload m.others }

unfoldable pub get_payload : Option Metadata → Option Value
get_payload none = none
get_payload (some m) = lookup payload_key m.others

unfoldable pub strip_payload : Metadata → Metadata
strip_payload m = record m { others = erase payload_key m.others }

abbrev pub withhold_keep_keys : List String
withhold_keep_keys = "modality" ∷ "source_uri" ∷ "page" ∷ "ordinal" ∷ "caption" ∷ []

unfoldable pub is_scalar : Value → Bool
is_scalar (Value.bytes _) = false
is_scalar (Value.array _) = false
is_scalar (Value.object _) = false
is_scalar _ = true

unfoldable pub is_kept : String × Value → Bool
is_kept (k, v) = contains k withhold_keep_keys && is_scalar v

-- `partial_for` is no kept key.
unfoldable pub scrub_metadata_for_withhold : Metadata → Metadata
scrub_metadata_for_withhold m = record { partial_for = none; others = keep is_kept m.others }
