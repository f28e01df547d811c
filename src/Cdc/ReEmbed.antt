-- ===== src/Cdc/ReEmbed.antt =====
-- src/rag_engine/cdc/reembed.py: the chunks of one version of the embedder, embedded again. The
-- store, the cache and the embedder are parameters; a row's `id` is the database's.
pub mod Batches
pub mod Columns
pub mod Drains
pub mod Diverges
use enterprise_rag_engine.Prelude.{
  ℕ, zero, suc, ◌+◌, String, Bool, true, false, Option, none, some, List, [], ◌∷◌, string_eq,
  nat_eq, ◌==◌, leb, if◌then◌else◌, is_empty, take, length, after_first,
}
use enterprise_rag_engine.Prelude.Dict.{lookup, insert}
use enterprise_rag_engine.Prelude.Fallible.{◌>>=◌}
use enterprise_rag_engine.Schemas.{Float, Value, Values, text, array}
use enterprise_rag_engine.Cdc.Processor.{Row}

-- A row's `id`: a RecordID with its clean key, or a text such as `chunk:key`.
pub data RecordId : Type 0 where
  record_id plain_id : String → RecordId

-- A row of the store: its `id`, if it has one, and its other columns
pub record StoredRow : Type 0 where
  pub id : Option RecordId
  pub columns : Row

-- `_bare`
unfoldable pub bare : RecordId → String
unfolding after_first
bare (record_id key) = key
bare (plain_id s) = elim (after_first 58 s) [ none ↦ s | some key ↦ key ]

-- `_Store`, `_VersionCache` and `Embedder`; `none` is an exception. `embed` is the first vector of
-- a batch of one, and `str` is Python's on the value of a `chunk_id` column.
pub record Migration (World : Type 0) : Type 0 where
  pub chunks_by_version : String → World → List StoredRow
  pub upsert_chunk : Row → World → Option World
  pub invalidate_version : Option (String → World → World)
  pub embed : Value → Values
  pub str : Option Value → String
  pub new_version : String
  pub batch_size : ℕ

-- `_PRESERVED`
abbrev pub preserved : List String
preserved = "chunk_id" ∷ "asset_id" ∷ "cls" ∷ "level" ∷ "text" ∷ []

-- `{k: row[k] for k in _PRESERVED if k in row}`
unfoldable pub copy_columns : List String → Row → Row
copy_columns [] row = []
copy_columns (k ∷ ks) row =
    let rest = copy_columns ks row in elim (lookup k row) [ none ↦ rest | some v ↦ (k, v) ∷ rest ]

-- The loop left with a count, an exception went through, or the loop is still running.
pub data Migrated (World : Type 0) : Type 0 where
  finished : ℕ → World → Migrated World
  raised : Migrated World
  running : World → Migrated World

module _ {World : Type 0} (m : Migration World) where
  -- `_bare(row.get("id", row.get("chunk_id")))`
  unfoldable pub key_of_row : StoredRow → String
  unfolding bare
  key_of_row row = elim row.id [
    | some rid ↦ bare rid
    | none ↦ bare (plain_id (m.str (lookup "chunk_id" row.columns)))
  ]

  -- `row.get("text", "")`
  unfoldable pub text_of_row : StoredRow → Value
  text_of_row row = elim (lookup "text" row.columns) [ none ↦ Value.text "" | some v ↦ v ]

  -- The row that `_reembed_row` writes back
  unfoldable pub new_row : StoredRow → Row
  unfolding copy_columns key_of_row text_of_row
  new_row row = insert "embedder_version" (Value.text m.new_version) (
      insert "vec" (Value.array (m.embed (text_of_row row)))
        (insert "chunk_id" (Value.text (key_of_row row)) (copy_columns preserved row.columns)))

  -- `_reembed_row` over a batch
  unfoldable pub reembed_rows : List StoredRow → World → Option World
  unfolding new_row
  reembed_rows [] w = some w
  reembed_rows (row ∷ rows) w = m.upsert_chunk (new_row row) w >>= reembed_rows rows

  -- `cache.invalidate_version(old_version)`, if there is a cache and something was migrated
  unfoldable pub retire : String → ℕ → World → World
  retire old_version migrated w = elim m.invalidate_version [
    | none ↦ w
    | some invalidate ↦ if migrated == 0 then w else invalidate old_version w
  ]

  -- The `while True` of `reembed_all`, for as many rounds as there is fuel
  unfoldable pub migrate : ℕ → String → ℕ → World → Migrated World
  unfolding reembed_rows retire
  migrate zero old_version migrated w = running w
  migrate (suc fuel) old_version migrated w =
      let rows = m.chunks_by_version old_version w in
      let batch = take m.batch_size rows in
      let count = migrated + length batch in
      elim (is_empty rows) [
        | true ↦ finished migrated (retire old_version migrated w)
        | false ↦ elim (reembed_rows batch w) [
          | none ↦ raised
          | some w' ↦ elim (leb (length rows) m.batch_size) [
            | true ↦ finished count (retire old_version count w')
            | false ↦ migrate fuel old_version count w'
          ]
        ]
      ]

  -- `reembed_all`
  unfoldable pub reembed_all : ℕ → String → World → Migrated World
  unfolding migrate
  reembed_all fuel old_version w = migrate fuel old_version 0 w
