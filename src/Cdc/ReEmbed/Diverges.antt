-- ===== src/Cdc/ReEmbed/Diverges.antt =====
-- A migration that never ends.
use enterprise_rag_engine.Prelude.{
  ℕ, zero, suc, ◌+◌, ◌≤◌, ◌<◌, String, ◌≡◌, refl, ◌∙◌, false, ◌⊎◌, inl, inr, some, List, [], ◌∷◌,
  string_eq, arith, leb, is_empty, take, length,
}
use enterprise_rag_engine.Cdc.ReEmbed.{
  StoredRow, Migration, running, key_of_row, new_row, reembed_rows, migrate, reembed_all,
}
use enterprise_rag_engine.Cdc.ReEmbed.Columns.{
  WorkingStore, lookup-new_row-chunk_id, is_version-new_row,
}

module _ {World : Type 0} (m : Migration World) (works : WorkingStore m)
    (old_version : String) where
  -- Rows that are written back under the old version leave none of its rows out.
  reembed_rows-length :
      m.new_version ≡ old_version
      → (xs : List StoredRow) (w : World) → works.IsValid w
      → (w' : World) × (reembed_rows m xs w ≡ some w')
        × works.IsValid w'
        × (length (m.chunks_by_version old_version w) ≤ length (m.chunks_by_version old_version w'))
  unfolding reembed_rows
  reembed_rows-length same [] w valid = (w, refl, valid, omega arith)
  reembed_rows-length same (x ∷ xs) w valid =
      let (w1, done, valid1, _, _, grows) =
        works.upsert_works (key_of_row m x) (new_row m x) w valid (lookup-new_row-chunk_id m x) in
      let (w2, done2, valid2, grows2) = reembed_rows-length same xs w1 valid1 in
      let grown = grows old_version (
        is_version-new_row m old_version x
        ∙ (string_eq.beq_iff m.new_version old_version).1 same) in
      (w2, rw done done2, valid2, omega (arith, grown, grows2))

  -- A round of a migration to the version that it migrates from, or of batches of no rows
  batch-length :
      (m.new_version ≡ old_version) ⊎ (m.batch_size ≡ 0)
      → (rows : List StoredRow) (w : World) → works.IsValid w
      → (w' : World) × (reembed_rows m (take m.batch_size rows) w ≡ some w')
        × works.IsValid w'
        × (length (m.chunks_by_version old_version w) ≤ length (m.chunks_by_version old_version w'))
  unfolding reembed_rows
  batch-length (inl same) rows w valid = reembed_rows-length same (take m.batch_size rows) w valid
  batch-length (inr no_batch) rows w valid = rw no_batch (w, refl, valid, omega arith)

  migrate-running :
      (m.new_version ≡ old_version) ⊎ (m.batch_size ≡ 0)
      → (fuel migrated : ℕ) (w : World) → works.IsValid w
      → m.batch_size < length (m.chunks_by_version old_version w)
      → (w' : World) × (migrate m fuel old_version migrated w ≡ running w')
  unfolding migrate
  migrate-running stuck zero migrated w valid more = (w, refl)
  migrate-running stuck (suc fuel) migrated w valid more =
      let rows : List StoredRow = m.chunks_by_version old_version w in
      let (w1, done, valid1, grown) = batch-length stuck rows w valid in
      let (w2, rest) =
        migrate-running stuck fuel (migrated + length (take m.batch_size rows)) w1 valid1
          (omega arith) in
      let full : is_empty rows ≡ false = nonempty rows (omega arith) in
      let left : leb (length rows) m.batch_size ≡ false = ground (arith, more) in
      (w2, rw (migrate, full) (rw (migrate, done) (rw left rest)))
    where
      nonempty : (xs : List StoredRow) → 1 ≤ length xs → is_empty xs ≡ false
      nonempty [] h = absurd (omega arith)
      nonempty (x ∷ xs) h = refl

  -- Over a store that works, a migration to the version that it migrates from, or in batches of no
  -- rows, is still running after any number of rounds, if there are more rows than a batch has.
  pub reembed_all-running :
      (m.new_version ≡ old_version) ⊎ (m.batch_size ≡ 0)
      → (fuel : ℕ) (w : World) → works.IsValid w
      → m.batch_size < length (m.chunks_by_version old_version w)
      → (w' : World) × (reembed_all m fuel old_version w ≡ running w')
  unfolding reembed_all
  reembed_all-running stuck fuel w valid more = migrate-running stuck fuel 0 w valid more
