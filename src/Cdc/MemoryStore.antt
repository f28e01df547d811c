-- ===== src/Cdc/MemoryStore.antt =====
-- An in-memory store of rows that meets what a migration relies on.
use enterprise_rag_engine.Prelude.{
  ℕ, ◌≤◌, String, ◌≡◌, refl, sym, ap, ◌∙◌, Bool, true, false, not, Option, none, some, List, [],
  ◌∷◌, map, string_eq, ◌==◌, arith, contains, length, keep, All, Bool-cases, inl, inr, beq_sym,
}
use enterprise_rag_engine.Prelude.Dict.{Dict, lookup, insert, erase, lookup-insert, lookup-erase}
use enterprise_rag_engine.Prelude.DistinctKeys.{
  HasDistinctKeys, HasDistinctKeys-lookup, insert-HasDistinctKeys,
}
use enterprise_rag_engine.Schemas.{Value, Values}
use enterprise_rag_engine.Cdc.Processor.{Row}
use enterprise_rag_engine.Cdc.ReEmbed.{StoredRow, record_id, Migration, key_of_row, bare}
use enterprise_rag_engine.Cdc.ReEmbed.Batches.{IsDistinct}
use enterprise_rag_engine.Cdc.ReEmbed.Columns.{is_text, is_version, WorkingStore}

abbrev pub Rows : Type 0
Rows = Dict String Row

abbrev pub row_at : String × Row → StoredRow
row_at x = record { id = some (record_id x.0); columns = x.1 }

abbrev pub rows_of : String → Rows → List StoredRow
rows_of v w = map row_at (keep (λ x. is_version v x.1) w)

abbrev pub put_at : Row → Rows → Option Value → Option Rows
put_at r w (some (Value.text id)) = some (insert id (erase "chunk_id" r) w)
put_at r w _ = none

pub length-rows_of-insert :
    (id v : String) (r : Row) (w : Rows)
    → is_version v r ≡ true
    → length (rows_of v w) ≤ length (rows_of v (insert id r w))
unfolding keep insert
length-rows_of-insert id v r [] same = omega arith
length-rows_of-insert id v r ((j, s) ∷ w) same =
    ground (arith, same, length-rows_of-insert id v r w same)

pub is_version-erase : (v : String) (r : Row) → is_version v (erase "chunk_id" r) ≡ is_version v r
is_version-erase v r = ap (is_text v) (lookup-erase "chunk_id" "embedder_version" r)

abbrev pub call_of : Option (String → Rows → Rows) → String → Rows → Rows
call_of none v w = w
call_of (some f) v w = f v w

module _ (new_version : String) (batch_size : ℕ) where
  abbrev pub memory : Migration Rows
  memory = record {
    chunks_by_version = rows_of;
    upsert_chunk = λ r w. put_at r w (lookup "chunk_id" r);
    invalidate_version = some (λ v w. w);
    embed = λ v. Values.nil;
    str = λ v. "None";
    new_version = new_version;
    batch_size = batch_size;
  }

  absent-rows_of :
      (k v : String) (w : Rows)
      → lookup k w ≡ none
      → contains k (map (key_of_row memory) (rows_of v w)) ≡ false
  unfolding keep lookup contains key_of_row bare
  absent-rows_of k v [] h = refl
  absent-rows_of k v ((j, r) ∷ w) h = elim (Bool-cases (is_version v r)) [
    | inl kept ↦ rw kept (ground (arith, h, beq_sym j k, absent-rows_of k v w))
    | inr other ↦ rw other (ground (arith, h, absent-rows_of k v w))
  ]

  pub rows_of-IsDistinct :
      (v : String) (w : Rows)
      → HasDistinctKeys w
      → IsDistinct (map (key_of_row memory) (rows_of v w))
  unfolding keep key_of_row bare
  rows_of-IsDistinct v [] h = tt
  rows_of-IsDistinct v ((j, r) ∷ w) (new, h) = elim (Bool-cases (is_version v r)) [
    | inl kept ↦ rw kept (absent-rows_of j v w new, rows_of-IsDistinct v w h)
    | inr other ↦ rw other (rows_of-IsDistinct v w h)
  ]

  pub rows_of-stored :
      (v : String) (w part : Rows)
      → All (λ x. lookup x.0 w ≡ some x.1) part
      → All (λ x. lookup (key_of_row memory x) w ≡ some x.columns) (rows_of v part)
  unfolding keep key_of_row bare
  rows_of-stored v w [] h = tt
  rows_of-stored v w ((j, r) ∷ part) (found, h) = elim (Bool-cases (is_version v r)) [
    | inl kept ↦ rw kept (found, rows_of-stored v w part h)
    | inr other ↦ rw other (rows_of-stored v w part h)
  ]

  abbrev other_than : String → StoredRow → Bool
  other_than id x = not (key_of_row memory x == id)

  keep-absent :
      (id v : String) (w : Rows)
      → lookup id w ≡ none
      → keep (other_than id) (rows_of v w) ≡ rows_of v w
  unfolding keep lookup key_of_row bare
  keep-absent id v [] h = refl
  keep-absent id v ((j, r) ∷ w) h = elim (Bool-cases (is_version v r)) [
    | inl kept ↦ rw kept (ground (arith, h, keep-absent id v w))
    | inr other ↦ rw other (ground (arith, h, keep-absent id v w))
  ]

  pub rows_of-insert :
      (id v : String) (r : Row) (w : Rows)
      → HasDistinctKeys w
      → is_version v r ≡ false
      → rows_of v (insert id r w) ≡ keep (other_than id) (rows_of v w)
  unfolding keep insert key_of_row bare
  rows_of-insert id v r [] h away = rw away refl
  rows_of-insert id v r ((j, s) ∷ w) (new, h) away = elim (Bool-cases (j == id)) [
    | inl same ↦
        let absent = ap (λ k. lookup k w) (sym ((string_eq.beq_iff j id).0 same)) ∙ new in
        let rest = sym (keep-absent id v w absent) in
        elim (Bool-cases (is_version v s)) [
          | inl kept ↦ rw (same, away, kept) (rw same rest)
          | inr other ↦ rw (same, away, other) rest
        ]
    | inr differs ↦ elim (Bool-cases (is_version v s)) [
      | inl kept ↦
          rw (differs, kept)
            (rw differs (ap (λ l. row_at (j, s) ∷ l) (rows_of-insert id v r w h away)))
      | inr other ↦ rw (differs, other) (rows_of-insert id v r w h away)
    ]
  ]

  abbrev pub memory_works : WorkingStore memory
  memory_works = record {
    IsValid = HasDistinctKeys;
    stored = λ j w. lookup j w;
    chunks-distinct = rows_of-IsDistinct;
    chunks-stored = λ v w valid. rows_of-stored v w w (HasDistinctKeys-lookup w valid);
    upsert_works = λ id r w valid named. (
      insert id (erase "chunk_id" r) w,
      ap (put_at r w) named,
      insert-HasDistinctKeys id (erase "chunk_id" r) w valid,
      λ j. lookup-insert id j (erase "chunk_id" r) w,
      λ v away. rows_of-insert id v (erase "chunk_id" r) w valid (is_version-erase v r ∙ away),
      λ v same. length-rows_of-insert id v (erase "chunk_id" r) w (is_version-erase v r ∙ same),
    );
    invalidate_works = λ invalidate v w e. (
      λ j. ap (λ o. lookup j (call_of o v w)) (sym e),
      λ u. ap (λ o. rows_of u (call_of o v w)) (sym e),
    );
  }
