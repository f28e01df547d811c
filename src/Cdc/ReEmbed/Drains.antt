-- ===== src/Cdc/ReEmbed/Drains.antt =====
-- A migration over a store that works: it ends, leaves no chunk behind and keeps the columns that
-- govern access.
use enterprise_rag_engine.Prelude.{
  ℕ, zero, suc, ◌+◌, ◌≤◌, ◌<◌, String, ◌≡◌, refl, sym, ap, ◌∙◌, true, false, Option, some, List, [],
  ◌∷◌, map, string_eq, nat_eq, ◌==◌, arith, leb, if◌then◌else◌, is_empty, contains, take, length,
  keep, All, All-take, Bool-cases, Option-cases, ◌⊎◌, inl, inr,
}
use enterprise_rag_engine.Prelude.Dict.{erase}
use enterprise_rag_engine.Cdc.Processor.{Row}
use enterprise_rag_engine.Cdc.ReEmbed.Columns.{
  Preserves, WorkingStore, lookup-new_row-chunk_id, is_version-new_row, new_row-Preserves,
  Preserves-refl, Preserves-trans,
}
use enterprise_rag_engine.Cdc.ReEmbed.Batches.{
  IsDistinct, drop, keep-outside-nil, length-take-drop, take-all, outside, take-IsDistinct,
  keep-outside-cons, keep-outside-take,
}
use enterprise_rag_engine.Cdc.ReEmbed.{
  StoredRow, Migration, Migrated, finished, key_of_row, new_row, reembed_rows, retire, migrate,
  reembed_all,
}

module _ {World : Type 0} (m : Migration World) (works : WorkingStore m)
    (old_version : String) where
  abbrev pub key : StoredRow → String
  key = key_of_row m

  -- Every chunk's governing columns are as they were.
  abbrev pub Keeps : World → World → Type 0
  Keeps w w' = (j : String) → Preserves (works.stored j w) (works.stored j w')

  -- The rows of a batch, as they were read
  abbrev AllStored : World → List StoredRow → Type 0
  AllStored w = All (λ x. works.stored (key x) w ≡ some x.columns)

  AllStored-other :
      (w w' : World) (id : String) (o : Option Row) (xs : List StoredRow)
      → ((j : String) → works.stored j w' ≡ (if id == j then o else works.stored j w))
      → contains id (map key xs) ≡ false
      → AllStored w xs
      → AllStored w' xs
  unfolding contains
  AllStored-other w w' id o [] rows new all = tt
  AllStored-other w w' id o (x ∷ xs) rows new (found, all) = (
    rows (key x) ∙ ground (arith, new, found),
    AllStored-other w w' id o xs rows (ground (arith, new)) all,
  )

  upsert-Keeps :
      (x : StoredRow) (w w' : World)
      → works.stored (key x) w ≡ some x.columns
      → ((j : String)
          → works.stored j w'
            ≡ (if key x == j then some (erase "chunk_id" (new_row m x)) else works.stored j w))
      → Keeps w w'
  upsert-Keeps x w w' found rows j = elim (Bool-cases (key x == j)) [
    | inl same ↦
        rw (rows j, same, ← (string_eq.beq_iff (key x) j).0 same, found) (new_row-Preserves m x)
    | inr other ↦ rw (rows j, other) (Preserves-refl (works.stored j w))
  ]

  -- A batch of distinct rows goes through, and exactly its rows leave the old version.
  reembed_rows_lem :
      (m.new_version == old_version) ≡ false
      → (xs : List StoredRow) (w : World) → works.IsValid w
      → IsDistinct (map key xs)
      → AllStored w xs
      → (w' : World) × (reembed_rows m xs w ≡ some w')
        × works.IsValid w'
        × (m.chunks_by_version old_version w'
            ≡ keep (outside key xs) (m.chunks_by_version old_version w))
        × Keeps w w'
  unfolding reembed_rows
  reembed_rows_lem bumped [] w valid distinct all =
      (w, refl, valid, sym (keep-outside-nil key _), λ j. Preserves-refl _)
  reembed_rows_lem bumped (x ∷ xs) w valid (new, distinct) (found, all) =
      let (w1, done, valid1, rows, left, _) =
        works.upsert_works (key x) (new_row m x) w valid (lookup-new_row-chunk_id m x) in
      let (w2, done2, valid2, left2, keeps) =
        reembed_rows_lem bumped xs w1 valid1 distinct
          (AllStored-other w w1 (key x) _ xs rows new all) in
      (
        w2,
        rw done done2,
        valid2,
        left2
            ∙ ap (keep (outside key xs))
                (left old_version (is_version-new_row m old_version x ∙ bumped))
            ∙ keep-outside-cons key x xs (m.chunks_by_version old_version w),
        λ j. Preserves-trans _ _ _ (upsert-Keeps x w w1 found rows j) (keeps j),
      )

  -- The end of a migration: no row of the old version is left.
  abbrev pub Drained : ℕ → World → Migrated World → Type 0
  Drained count w result =
      (w' : World) × (result ≡ finished count w')
      × (m.chunks_by_version old_version w' ≡ [])
      × Keeps w w'

  retire_lem :
      (n : ℕ) (w w' : World)
      → m.chunks_by_version old_version w' ≡ []
      → Keeps w w'
      → Drained n w (finished n (retire m old_version n w'))
  unfolding retire
  retire_lem n w w' none_left keeps = elim (Option-cases m.invalidate_version) [
    | inl no_cache ↦ rw no_cache (w', refl, none_left, keeps)
    | inr (invalidate, cache) ↦ rw cache (go invalidate cache (Bool-cases (n == 0)))
  ]
    where
      go :
          (invalidate : String → World → World)
          → m.invalidate_version ≡ some invalidate
          → ((n == 0) ≡ true) ⊎ ((n == 0) ≡ false)
          → Drained n w (finished n (if n == 0 then w' else invalidate old_version w'))
      go invalidate cache (inl none_done) = rw none_done (w', refl, none_left, keeps)
      go invalidate cache (inr some_done) =
          let (rows, chunks) = works.invalidate_works invalidate old_version w' cache in
          rw some_done (
            invalidate old_version w',
            refl,
            chunks old_version ∙ none_left,
            λ j. rw (rows j) (keeps j),
          )

  -- One round: it is the last one, or fewer rows are left for the rounds after it.
  migrate-round :
      (m.new_version == old_version) ≡ false
      → 1 ≤ m.batch_size
      → (fuel migrated total : ℕ) (w : World) → works.IsValid w
      → is_empty (m.chunks_by_version old_version w) ≡ false
      → total ≡ migrated + length (m.chunks_by_version old_version w)
      → ((done : ℕ) (w' : World)
          → works.IsValid w'
          → length (m.chunks_by_version old_version w') < length (m.chunks_by_version old_version w)
          → total ≡ done + length (m.chunks_by_version old_version w')
          → Drained total w' (migrate m fuel old_version done w'))
      → Drained total w (migrate m (suc fuel) old_version migrated w)
  unfolding migrate
  migrate-round bumped some_batch fuel migrated total w valid full sum later =
      let (w1, done, valid1, left, keeps) =
        reembed_rows_lem bumped batch w valid
          (take-IsDistinct key m.batch_size rows (works.chunks-distinct old_version w valid))
          (All-take _ m.batch_size rows (works.chunks-stored old_version w valid)) in
      let rest : m.chunks_by_version old_version w1 ≡ drop m.batch_size rows =
        left
        ∙ keep-outside-take key m.batch_size rows (works.chunks-distinct old_version w valid) in
      rw (migrate, full)
        (rw (migrate, done)
          (last w1 valid1 rest keeps (Bool-cases (leb (length rows) m.batch_size))))
    where
      rows : List StoredRow
      rows = m.chunks_by_version old_version w

      batch : List StoredRow
      batch = take m.batch_size rows

      count : ℕ
      count = migrated + length batch

      nonempty : (xs : List StoredRow) → is_empty xs ≡ false → 1 ≤ length xs
      nonempty [] h = cc
      nonempty (x ∷ xs) h = omega arith

      shrinks : (n : ℕ) (xs : List StoredRow) → 1 ≤ n → is_empty xs ≡ false → 1 ≤ length (take n xs)
      shrinks zero xs h k = absurd (omega arith)
      shrinks (suc n) [] h k = cc
      shrinks (suc n) (x ∷ xs) h k = omega arith

      last :
          (w1 : World)
          → works.IsValid w1
          → m.chunks_by_version old_version w1 ≡ drop m.batch_size rows
          → Keeps w w1
          → (leb (length rows) m.batch_size ≡ true) ⊎ (leb (length rows) m.batch_size ≡ false)
          → Drained total w (elim (leb (length rows) m.batch_size) [
            | true ↦ finished count (retire m old_version count w1)
            | false ↦ migrate m fuel old_version count w1
          ])
      last w1 valid1 rest keeps (inl all) =
          let (whole, none_left) = take-all m.batch_size rows (ground arith) in
          let e : total ≡ count = sum ∙ ap (λ xs. migrated + length xs) (sym whole) in
          rw (all, e) (retire_lem count w w1 (rest ∙ none_left) keeps)
      last w1 valid1 rest keeps (inr more) =
          let cut = length-take-drop m.batch_size rows in
          let size : length (m.chunks_by_version old_version w1) ≡ length (drop m.batch_size rows) =
            ap length rest in
          let (w2, done, none_left, keeps2) =
            later count w1 valid1 (omega (arith, shrinks m.batch_size rows some_batch full))
              (omega arith) in
          rw more (w2, done, none_left, λ j. Preserves-trans _ _ _ (keeps j) (keeps2 j))

  migrate_lem :
      (m.new_version == old_version) ≡ false
      → 1 ≤ m.batch_size
      → (fuel migrated total : ℕ) (w : World) → works.IsValid w
      → length (m.chunks_by_version old_version w) < fuel
      → total ≡ migrated + length (m.chunks_by_version old_version w)
      → Drained total w (migrate m fuel old_version migrated w)
  unfolding migrate
  migrate_lem bumped some_batch zero migrated total w valid enough sum = absurd (omega arith)
  migrate_lem bumped some_batch (suc fuel) migrated total w valid enough sum =
      elim (Bool-cases (is_empty (m.chunks_by_version old_version w))) [
        | inl empty ↦
            let none_left : m.chunks_by_version old_version w ≡ [] = is_empty-eq _ empty in
            let done : total ≡ migrated = omega (arith, ap length none_left) in
            rw (migrate, empty)
              (rw done (retire_lem migrated w w none_left (λ j. Preserves-refl _)))
        | inr full ↦
            migrate-round bumped some_batch fuel migrated total w valid full sum
              λ done w' valid' less.
                migrate_lem bumped some_batch fuel done total w' valid' (omega arith)
      ]
    where
      is_empty-eq : (rows : List StoredRow) → is_empty rows ≡ true → rows ≡ []
      is_empty-eq [] h = refl
      is_empty-eq (x ∷ rows) h = cc

  -- With a new version, a batch of at least one row and fuel for one round more than there are rows,
  -- the migration ends. It counts every row of the old version once, leaves no row of that version
  -- behind, and every stored chunk keeps its asset, class, level and text.
  pub reembed_all_lem :
      (m.new_version == old_version) ≡ false
      → 1 ≤ m.batch_size
      → (fuel : ℕ) (w : World) → works.IsValid w
      → length (m.chunks_by_version old_version w) < fuel
      → Drained (length (m.chunks_by_version old_version w)) w (reembed_all m fuel old_version w)
  unfolding reembed_all
  reembed_all_lem bumped some_batch fuel w valid enough =
      migrate_lem bumped some_batch fuel 0 _ w valid enough (omega arith)
