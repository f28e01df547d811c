-- ===== src/Store/ChunkSource/FailsClosed.antt =====
-- A row with an unknown class never becomes a chunk.
use enterprise_rag_engine.Prelude.{
  ℕ, ◌≤◌, ◌<◌, String, ◌≡◌, refl, ap, Bool, true, false, not, ◌||◌, ◌⊎◌, keep, beq_sym, Option,
  none, some, List, [], ◌∷◌, string_eq, contains, map, All, arith, Option-cases, inl, inr, leb,
  leb→le, Bool-cases,
}
use enterprise_rag_engine.Prelude.Dict.{Dict, lookup}
use enterprise_rag_engine.Schemas.{SecurityContext, EnrichedChunk}
use enterprise_rag_engine.Schemas.Roles.{security_context}
use enterprise_rag_engine.Governance.Access.{valid_classes}
use enterprise_rag_engine.Catalog.Matrix.{classes}
use enterprise_rag_engine.Store.ChunkSource.{
  ChunkRow, Built, built, key_error, validation_error, built_of, security_of, row_security,
  all_chunk_security, Field, absent, null_field, given, leveled, Listing, or_empty, list_row,
}

lookup-contains :
    {V : Type 0} (k : String) (d : Dict String V) (v : V)
    → lookup k d ≡ some v
    → contains k (map (λ x. x.0) d) ≡ true
unfolding lookup contains
lookup-contains k [] v h = ground (arith, h)
lookup-contains k ((j, w) ∷ d) v h =
    ground (arith, h, lookup-contains k d v, string_eq.beq_iff j k, string_eq.beq_iff k j)

lookup_absent :
    {V : Type 0} (k : String) (d : Dict String V)
    → lookup k d ≡ none
    → contains k (map (λ x. x.0) d) ≡ false
unfolding lookup contains
lookup_absent k [] h = refl
lookup_absent k ((j, v) ∷ d) h = ground (arith, h, lookup_absent k d, beq_sym k j)

-- Whether a row names no class of the access model, or has no level
abbrev pub is_absent : Field ℕ → Bool
is_absent absent = true
is_absent _ = false

abbrev pub names_class : Option String → Bool
names_class none = false
names_class (some cls) = contains cls valid_classes

abbrev pub lacks_access : Option String → Field ℕ → Bool
lacks_access cls level = not (names_class cls) || is_absent level

abbrev pub is_malformed : ChunkRow → Bool
is_malformed row = lacks_access row.cls row.level

abbrev pub is_well_formed : ChunkRow → Bool
is_well_formed row = not (is_malformed row)

-- A level that the validators refuse
abbrev pub IsRefusedLevel : Field ℕ → Type 0
IsRefusedLevel absent = ⊥
IsRefusedLevel null_field = Unit
IsRefusedLevel (given n) = 5 < n

-- A row that is not malformed, with a level that is NULL or above 5 or an asset that is NULL
abbrev pub IsRefused : ChunkRow → Type 0
IsRefused row =
    (is_malformed row ≡ false) × (IsRefusedLevel row.level ⊎ (row.asset_id ≡ null_field))

abbrev pub SomeRow : (ChunkRow → Type 0) → List ChunkRow → Type 0
SomeRow P [] = ⊥
SomeRow P (row ∷ rows) = P row ⊎ SomeRow P rows

-- What a chunk and a row say of the access to it
abbrev pub access_of : EnrichedChunk → String × Option String × Field ℕ
access_of c = (c.chunk_id, some c.security.sensitivity_class, given c.security.clearance_level)

abbrev pub row_access : ChunkRow → String × Option String × Field ℕ
row_access row = (row.id, row.cls, row.level)

-- What the result of `row_security` says of the class and the level of a row
abbrev Explains : Option String → Field ℕ → Built → Type 0
Explains cls level (built sec) =
    (lacks_access cls level ≡ false)
    × (cls ≡ some sec.sensitivity_class)
    × (level ≡ given sec.clearance_level)
    × (sec.clearance_level ≤ 5)
Explains cls level key_error = lacks_access cls level ≡ true
Explains cls level validation_error = (lacks_access cls level ≡ false) × IsRefusedLevel level

leveled_lem : (cls : String) (level : Field ℕ) → Explains (some cls) level (leveled cls level)
unfolding leveled security_of built_of security_context
leveled_lem cls absent = ground arith
leveled_lem cls null_field = elim (Option-cases (lookup cls classes)) [
  | inl unknown ↦ rw (security_of, unknown) (ground (arith, lookup_absent cls classes unknown))
  | inr (sc, known) ↦
      rw (security_of, known) (ground (arith, lookup-contains cls classes sc known), tt)
]
leveled_lem cls (given n) = elim (Option-cases (lookup cls classes)) [
  | inl unknown ↦ rw (security_of, unknown) (ground (arith, lookup_absent cls classes unknown))
  | inr (sc, known) ↦
      let fine : lacks_access (some cls) (given n) ≡ false =
        ground (arith, lookup-contains cls classes sc known) in
      elim (Bool-cases (leb n 5)) [
        | inl low ↦ rw (security_of, known, low) (fine, refl, refl, leb→le n 5 low)
        | inr high ↦ rw (security_of, known, high) (fine, ground (arith, high))
      ]
]

row_security_lem : (row : ChunkRow) → Explains row.cls row.level (row_security row)
unfolding row_security
row_security_lem row = go row.cls
  where
    go :
        (cls : Option String)
        → Explains cls row.level (elim cls [ none ↦ key_error | some c ↦ leveled c row.level ])
    go none = refl
    go (some c) = leveled_lem c row.level

-- What a listing of the chunks holds
abbrev pub IsListing : List ChunkRow → Listing → Type 0
IsListing rows none = SomeRow IsRefused rows
IsListing rows (some (out, drops)) =
    (map access_of out ≡ map row_access (keep is_well_formed rows))
    × (drops ≡ map (λ (row : ChunkRow). row.id) (keep is_malformed rows))
    × All (λ c. c.security.clearance_level ≤ 5) out

-- A row with a class and a level is listed, unless its asset is NULL.
listed :
    (row : ChunkRow) (sec : SecurityContext) (rows : List ChunkRow)
    → Explains row.cls row.level (built sec)
    → (o : Option String) → (o ≡ none → row.asset_id ≡ null_field)
    → (rest : Listing) → IsListing rows rest
    → IsListing (row ∷ rows) (list_row row.id o sec rest)
unfolding keep
listed row sec rows (fine, cls, level, low) none null rest listing = inl (fine, inr (null refl))
listed row sec rows (fine, cls, level, low) (some asset) null none later = inr later
listed row sec rows (fine, cls, level, low) (some asset) null (some (out, drops))
      (same, gone, all) =
    rw fine (rw (cls, level, same) refl, gone, (low, all))

or_empty-null : (f : Field String) → or_empty f ≡ none → f ≡ null_field
or_empty-null absent h = ground (arith, h)
or_empty-null null_field h = refl
or_empty-null (given a) h = ground (arith, h)

-- The rows without a class of the access model or without a level are dropped, and all the others
-- are listed, both in order: each with the id, the class and the level of its row, which is at most
-- 5. The listing raises only if some other row has a level that is NULL or above 5, or an asset
-- that is NULL.
pub all_chunk_security_lem : (rows : List ChunkRow) → IsListing rows (all_chunk_security rows)
unfolding all_chunk_security keep
all_chunk_security_lem [] = (refl, refl, tt)
all_chunk_security_lem (row ∷ rows) =
    go (row_security row) refl (row_security_lem row) (all_chunk_security rows) refl
      (all_chunk_security_lem rows)
  where
    go :
        (b : Built)
        → row_security row ≡ b
        → Explains row.cls row.level b
        → (rest : Listing) → all_chunk_security rows ≡ rest
        → IsListing rows rest
        → IsListing (row ∷ rows) (all_chunk_security (row ∷ rows))
    go validation_error e (fine, refused) rest f listing =
        rw (all_chunk_security, e) (inl (fine, inl refused))
    go key_error e bad none f later = rw (all_chunk_security, e, f) (inr later)
    go key_error e bad (some (out, drops)) f (same, gone, low) =
        rw (all_chunk_security, e, f) (rw bad (same, ap (λ ids. row.id ∷ ids) gone, low))
    go (built sec) e known rest f listing =
        rw (all_chunk_security, e, f)
          (listed row sec rows known (or_empty row.asset_id) (or_empty-null row.asset_id) rest
            listing)
