-- ===== src/Store/Tests.antt =====
-- Three rows, one of which has an unknown class.
use enterprise_rag_engine.Prelude.{ℕ, String, ◌≡◌, refl, none, some, List, [], ◌∷◌, string_eq}
use enterprise_rag_engine.Prelude.Dict.{lookup}
use enterprise_rag_engine.Schemas.Roles.{security_context}
use enterprise_rag_engine.Store.ChunkSource.{
  ChunkRow, absent, given, leveled, raised, built_of, security_of, row_security, get_chunk,
  all_chunk_security,
}
use enterprise_rag_engine.Store.ChunkSource.FailsClosed.{IsListing, all_chunk_security_lem}

abbrev row : String → String → ℕ → ChunkRow
row id cls level = record {
  id = id;
  cls = some cls;
  level = given level;
  asset_id = absent;
  text = given "the content";
}

abbrev rows : List ChunkRow
rows = row "c1" "B" 1 ∷ row "c2" "Z" 1 ∷ row "c3" "G" 4 ∷ []

all_chunk_security_lem_example : IsListing rows (all_chunk_security rows)
all_chunk_security_lem_example = all_chunk_security_lem rows

-- A level that is out of range raises, where an unknown class is dropped.
level_raises : get_chunk (some (row "c4" "B" 9)) ≡ raised
unfolding get_chunk row_security leveled security_of built_of security_context lookup
level_raises = refl

level_aborts : all_chunk_security (row "c1" "B" 1 ∷ row "c4" "B" 9 ∷ []) ≡ none
unfolding all_chunk_security row_security leveled security_of built_of security_context lookup
level_aborts = refl
