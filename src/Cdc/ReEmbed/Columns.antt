-- ===== src/Cdc/ReEmbed/Columns.antt =====
-- The columns that a migration keeps of a row, and what a store that works promises.
use enterprise_rag_engine.Prelude.{
  ◌≤◌, String, ◌≡◌, refl, sym, ap, ◌∙◌, Bool, true, false, not, Option, none, some, List, [], ◌∷◌,
  map, string_eq, nat_eq, ◌==◌, arith, if◌then◌else◌, contains, length, keep, All, Bool-cases,
  Option-cases, inl, inr, beq_sym, is_some,
}
use enterprise_rag_engine.Prelude.Dict.{lookup, erase, lookup-insert, lookup-erase}
use enterprise_rag_engine.Schemas.{Value}
use enterprise_rag_engine.Cdc.Processor.{Row}
use enterprise_rag_engine.Cdc.ReEmbed.Batches.{IsDistinct}
use enterprise_rag_engine.Cdc.ReEmbed.{
  StoredRow, Migration, preserved, copy_columns, key_of_row, new_row,
}

-- `row["embedder_version"] == version`
abbrev pub is_text : String → Option Value → Bool
is_text version (some (Value.text v)) = v == version
is_text version _ = false

abbrev pub is_version : String → Row → Bool
is_version version row = is_text version (lookup "embedder_version" row)

-- A column of a row that may be absent
abbrev pub column : String → Option Row → Option Value
column k none = none
column k (some row) = lookup k row

-- The columns that govern a chunk, and its text and asset, are as they were.
abbrev pub Preserves : Option Row → Option Row → Type 0
Preserves old new =
    (is_some new ≡ is_some old)
    × ((k : String)
        → contains k ("asset_id" ∷ "cls" ∷ "level" ∷ "text" ∷ []) ≡ true
        → column k new ≡ column k old)

module _ {World : Type 0} (m : Migration World) where
  -- A store whose upserts go through and replace one row, whose queries return each stored row of a
  -- version once, and a cache that leaves the store alone. `IsValid` is what the store keeps true.
  pub record WorkingStore : Type 1 where
    pub IsValid : World → Type 0
    pub stored : String → World → Option Row
    pub chunks-distinct :
        (v : String) (w : World)
        → IsValid w
        → IsDistinct (map (key_of_row m) (m.chunks_by_version v w))
    pub chunks-stored :
        (v : String) (w : World)
        → IsValid w
        → All (λ x. stored (key_of_row m x) w ≡ some x.columns) (m.chunks_by_version v w)
    pub upsert_works :
        (id : String) (r : Row) (w : World)
        → IsValid w
        → lookup "chunk_id" r ≡ some (Value.text id)
        → (w' : World) × (m.upsert_chunk r w ≡ some w')
          × IsValid w'
          × ((j : String)
              → stored j w' ≡ (if id == j then some (erase "chunk_id" r) else stored j w))
          × ((v : String)
              → is_version v r ≡ false
              → m.chunks_by_version v w'
                ≡ keep (λ x. not (key_of_row m x == id)) (m.chunks_by_version v w))
          × ((v : String)
              → is_version v r ≡ true
              → length (m.chunks_by_version v w) ≤ length (m.chunks_by_version v w'))
    pub invalidate_works :
        (invalidate : String → World → World) (v : String) (w : World)
        → m.invalidate_version ≡ some invalidate
        → ((j : String) → stored j (invalidate v w) ≡ stored j w)
          × ((u : String) → m.chunks_by_version u (invalidate v w) ≡ m.chunks_by_version u w)

  pub lookup-new_row-chunk_id :
      (x : StoredRow) → lookup "chunk_id" (new_row m x) ≡ some (Value.text (key_of_row m x))
  unfolding new_row
  lookup-new_row-chunk_id x = simp (lookup-insert)

  pub is_version-new_row :
      (v : String) (x : StoredRow) → is_version v (new_row m x) ≡ (m.new_version == v)
  unfolding new_row
  is_version-new_row v x =
      ap (is_text v)
        (lookup-insert "embedder_version" "embedder_version" (Value.text m.new_version) _)

  lookup-copy_columns-none :
      (k : String) (ks : List String) (r : Row)
      → lookup k r ≡ none
      → lookup k (copy_columns ks r) ≡ none
  unfolding copy_columns lookup
  lookup-copy_columns-none k [] r h = refl
  lookup-copy_columns-none k (j ∷ ks) r h = elim (Option-cases (lookup j r)) [
    | inl absent ↦ rw (copy_columns, absent) (lookup-copy_columns-none k ks r h)
    | inr (v, found) ↦
        rw (copy_columns, found)
          (elim (Bool-cases (j == k)) [
            | inl same ↦
                absurd (clash v j found (ap (λ i. lookup i r) ((string_eq.beq_iff j k).0 same) ∙ h))
            | inr other ↦ rw other (lookup-copy_columns-none k ks r h)
          ])
  ]
    where
      clash : (v : Value) (j : String) → lookup j r ≡ some v → lookup j r ≡ none → ⊥
      clash v j found absent = cc

  -- Column by column, for any list of columns that has the column
  lookup-copy_columns :
      (k : String) (ks : List String) (r : Row)
      → contains k ks ≡ true
      → lookup k (copy_columns ks r) ≡ lookup k r
  unfolding copy_columns contains lookup
  lookup-copy_columns k [] r h = cc
  lookup-copy_columns k (j ∷ ks) r h = elim (Bool-cases (j == k)) [
    | inl same ↦
        let e : j ≡ k = (string_eq.beq_iff j k).0 same in
        elim (Option-cases (lookup j r)) [
          | inl absent ↦
              rw (copy_columns, absent)
                (lookup-copy_columns-none k ks r (ap (λ i. lookup i r) (sym e) ∙ absent)
                  ∙ sym absent
                  ∙ ap (λ i. lookup i r) e)
          | inr (v, found) ↦ rw (copy_columns, found) (rw same (sym found ∙ ap (λ i. lookup i r) e))
        ]
    | inr other ↦
        let rest = lookup-copy_columns k ks r (ground (arith, h, other, beq_sym k j)) in
        elim (Option-cases (lookup j r)) [
          | inl absent ↦ rw (copy_columns, absent) rest
          | inr (v, found) ↦ rw (copy_columns, found) (rw other rest)
        ]
  ]

  -- The row that is written back has the columns of the row that was read.
  pub new_row-Preserves :
      (x : StoredRow) → Preserves (some x.columns) (some (erase "chunk_id" (new_row m x)))
  unfolding new_row contains
  new_row-Preserves x = (refl, kept)
    where
      differs :
          (name k : String)
          → contains k ("asset_id" ∷ "cls" ∷ "level" ∷ "text" ∷ []) ≡ true
          → contains name ("asset_id" ∷ "cls" ∷ "level" ∷ "text" ∷ []) ≡ false
          → (name == k) ≡ false
      differs name k known unknown = ground (arith, string_eq.beq_iff name k, known, unknown)

      kept :
          (k : String)
          → contains k ("asset_id" ∷ "cls" ∷ "level" ∷ "text" ∷ []) ≡ true
          → lookup k (erase "chunk_id" (new_row m x)) ≡ lookup k x.columns
      kept k known =
          lookup-erase "chunk_id" k (new_row m x)
          ∙ rw (differs "chunk_id" k known refl) (
              lookup-insert "embedder_version" k _ _
              ∙ rw (differs "embedder_version" k known refl) (
                  lookup-insert "vec" k _ _
                  ∙ rw (differs "vec" k known refl) (
                      lookup-insert "chunk_id" k _ _
                      ∙ rw (differs "chunk_id" k known refl)
                          (lookup-copy_columns k preserved x.columns (ground (arith, known))))))

pub Preserves-refl : (o : Option Row) → Preserves o o
Preserves-refl o = (refl, λ k known. refl)

pub Preserves-trans : (a b c : Option Row) → Preserves a b → Preserves b c → Preserves a c
Preserves-trans a b c (p, q) (p', q') = (p' ∙ p, λ k known. q' k known ∙ q k known)
