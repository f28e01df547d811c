-- ===== src/Catalog/Oracle.antt =====
-- src/rag_engine/catalog/oracle.py: the grid of personas against sensitivity classes, each cell
-- comparing the engine's decision with the reference decision of seeds/access_matrix.py.
pub mod Exact
use Prim.Native.String.{◌++◌ as concat}
use enterprise_rag_engine.Prelude.{
  ℕ, ◌+◌, String, Bool, Option, none, some, List, [], ◌∷◌, ◌++◌, map, string_eq, ltb, length,
  count_if,
}
use enterprise_rag_engine.Prelude.Dict.{lookup}
use enterprise_rag_engine.Prelude.Fallible.{◌>>=◌}
use enterprise_rag_engine.Schemas.{EnrichedChunk, Session, Decision}
use enterprise_rag_engine.Schemas.Roles.{security_context, make_session}
use enterprise_rag_engine.Governance.Access.{evaluate}
use enterprise_rag_engine.Catalog.Matrix.{SensitivityClass, classes, evaluate_class, Persona}

-- `_REVEAL.get(decision, default)`
unfoldable pub reveal_get : Decision → ℕ → ℕ
reveal_get Decision.deny default = 0
reveal_get Decision.partial default = 1
reveal_get Decision.mask default = 2
reveal_get Decision.allow default = 3
reveal_get (Decision.other _) default = default

-- `none` is the KeyError of an unknown class, or the ValidationError of its level.
unfoldable pub chunk_for : String → Option EnrichedChunk
chunk_for cls = do
  sc ← lookup cls classes
  sec ← security_context sc.need_to_know_roles sc.min_level "UNASSIGNED" cls sc.need_to_know_roles
  some (record {
    chunk_id = concat "c-" cls;
    parent_doc_id = concat "asset-" cls;
    parent_title = "t";
    content = "x";
    contextual_anchor = "";
    security = sec;
    ordinal = 0;
    modality = "text";
    metadata = record { partial_for = none; others = [] };
  })

pub record Cell : Type 0 where
  pub persona : String
  pub sensitivity_class : String
  pub decision : Decision
  pub expected : Decision
  pub leaked : Bool

abbrev pub cell_of : Persona → Session → String → EnrichedChunk → Decision → Cell
cell_of p sess cls chunk truth = record {
  persona = p.key;
  sensitivity_class = cls;
  decision = (evaluate chunk sess).decision;
  expected = truth;
  leaked = ltb (reveal_get truth 0) (reveal_get (evaluate chunk sess).decision 3);
}

unfoldable pub cell_for : Persona → Session → String → Option Cell
cell_for p sess cls = do
  chunk ← chunk_for cls
  truth ← evaluate_class cls p.clearance_level p.roles
  some (cell_of p sess cls chunk truth)

unfoldable pub row_for : Persona → Session → List String → Option (List Cell)
row_for p sess [] = some []
row_for p sess (cls ∷ rest) = do
  cell ← cell_for p sess cls
  cells ← row_for p sess rest
  some (cell ∷ cells)

abbrev pub class_codes : List String
class_codes = map (λ e. e.0) classes

unfoldable pub grid_cells : List Persona → Option (List Cell)
grid_cells [] = some []
grid_cells (p ∷ ps) = do
  sess ← make_session p.key p.roles p.clearance_level
  row ← row_for p sess class_codes
  rest ← grid_cells ps
  some (row ++ rest)

pub record Grid : Type 0 where
  pub cells : List Cell
  pub total : ℕ
  pub leaks : ℕ

abbrev pub grid_of : List Cell → Grid
grid_of cells = record {
  cells = cells;
  total = length cells;
  leaks = count_if (λ c. c.leaked) cells;
}

unfoldable pub build_oracle_grid : List Persona → Option Grid
build_oracle_grid ps = do cells ← grid_cells ps; some (grid_of cells)
