-- ===== src/Store/ChunkSource.antt =====
-- src/rag_engine/store/chunk_source.py: chunks from stored rows. A row's id is its bare key.
pub mod FailsClosed
use enterprise_rag_engine.Prelude.{ℕ, String, Option, none, some, List, [], ◌∷◌, string_eq}
use enterprise_rag_engine.Prelude.Dict.{lookup}
use enterprise_rag_engine.Schemas.{SecurityContext, EnrichedChunk}
use enterprise_rag_engine.Schemas.Roles.{security_context}
use enterprise_rag_engine.Catalog.Matrix.{classes}

-- A field of a row: the row lacks it, or it is NULL, or it has a value.
pub data Field (A : Type 0) : Type 0 where
  absent null_field : Field A
  given : A → Field A

-- A row of the `chunk` table. A class that is absent or NULL is `none`: both are a KeyError.
pub record ChunkRow : Type 0 where
  pub id : String
  pub cls : Option String
  pub level : Field ℕ
  pub asset_id : Field String
  pub text : Field String

-- `_security` returned, raised a KeyError or raised a ValidationError.
pub data Built : Type 0 where
  built : SecurityContext → Built
  key_error validation_error : Built

unfoldable pub built_of : Option SecurityContext → Built
built_of none = validation_error
built_of (some sec) = built sec

-- `_security(cls, level)`, whose roles are those of the access matrix; the level may be NULL.
unfoldable pub security_of : String → Option ℕ → Built
unfolding built_of
security_of cls level = elim (lookup cls classes) [
  | none ↦ key_error
  | some sc ↦ elim level [
    | none ↦ validation_error
    | some n ↦
        built_of (security_context sc.need_to_know_roles n "UNASSIGNED" cls sc.need_to_know_roles)
  ]
]

-- `_security(row["cls"], row["level"])`, for a class
unfoldable pub leveled : String → Field ℕ → Built
unfolding security_of
leveled cls absent = key_error
leveled cls null_field = security_of cls none
leveled cls (given n) = security_of cls (some n)

unfoldable pub row_security : ChunkRow → Built
unfolding leveled
row_security row = elim row.cls [ none ↦ key_error | some cls ↦ leveled cls row.level ]

-- `row.get(key, "")`, where a text is wanted: NULL is refused.
abbrev pub or_empty : Field String → Option String
or_empty absent = some ""
or_empty null_field = none
or_empty (given s) = some s

abbrev chunk_of : String → String → String → String → SecurityContext → EnrichedChunk
chunk_of id asset title content security = record {
  chunk_id = id;
  parent_doc_id = asset;
  parent_title = title;
  content = content;
  contextual_anchor = "";
  security = security;
  ordinal = 0;
  modality = "text";
  metadata = record { partial_for = none; others = [] };
}

-- A chunk, or none; whether the drop was audited. `raised` is an exception that goes through.
pub data Fetched : Type 0 where
  fetched : EnrichedChunk → Fetched
  missing dropped raised : Fetched

-- `EnrichedChunk(...)` in `get_chunk`
abbrev fetched_of : String → Option String → Option String → SecurityContext → Fetched
fetched_of id (some asset) (some text) sec = fetched (chunk_of id asset asset text sec)
fetched_of id _ _ sec = raised

-- `SurrealChunkSource.get_chunk`, from the row that the store gives
unfoldable pub get_chunk : Option ChunkRow → Fetched
unfolding row_security
get_chunk none = missing
get_chunk (some row) = elim (row_security row) [
  | built sec ↦ fetched_of row.id (or_empty row.asset_id) (or_empty row.text) sec
  | key_error ↦ dropped
  | validation_error ↦ raised
]

-- The listed chunks and the ids of the dropped rows; `none` is a ValidationError.
abbrev pub Listing : Type 0
Listing = Option (List EnrichedChunk × List String)

-- `_audit_drop`
abbrev pub drop_row : String → Listing → Listing
drop_row id none = none
drop_row id (some (out, drops)) = some (out, id ∷ drops)

-- `out.append(EnrichedChunk(...))`
abbrev pub list_row : String → Option String → SecurityContext → Listing → Listing
list_row id none sec rest = none
list_row id (some asset) sec none = none
list_row id (some asset) sec (some (out, drops)) = some (chunk_of id asset "" "" sec ∷ out, drops)

-- `all_chunk_security`: the chunks without content and the ids of the dropped rows
unfoldable pub all_chunk_security : List ChunkRow → Listing
unfolding row_security
all_chunk_security [] = some ([], [])
all_chunk_security (row ∷ rows) =
    let rest = all_chunk_security rows in
    elim (row_security row) [
      | validation_error ↦ none
      | key_error ↦ drop_row row.id rest
      | built sec ↦ list_row row.id (or_empty row.asset_id) sec rest
    ]
