-- ===== src/TextToSql/Gate.antt =====
-- src/rag_engine/sql: the read-only gate (ast_gate.py) and the cost guard (cost_guard.py). What
-- sqlglot makes of a text is a parameter.
use enterprise_rag_engine.Prelude.{
  ℕ, String, Bool, true, false, not, Option, none, some, List, [], ◌∷◌, string_eq, any, contains,
  ltb, if◌then◌else◌, is_empty, ◌||◌,
}
use enterprise_rag_engine.TextToSql.ResultMasking.{ProjectionSource}

-- The classes of nodes that the gate looks for
pub data NodeKind : Type 0 where
  insert update delete drop create alter merge command into other_node : NodeKind

-- A projection: its class, the columns in it and its name in the result
pub record Projection : Type 0 where
  pub is_star : Bool
  pub is_column : Bool
  pub columns : List String
  pub alias_or_name : String

-- What the source uses of sqlglot; `parse` gives `none` when it raises, and so may a statement.
pub record Sqlglot (Tree : Type 0) : Type 0 where
  pub parse : String → Option (List (Option Tree))
  pub is_with : Tree → Bool
  pub this : Tree → Tree
  pub is_select : Tree → Bool
  pub finds_into : Tree → Bool
  pub walk : Tree → List NodeKind
  pub where_columns : Tree → Option (List String)
  pub expressions : Tree → List Projection
  pub to_bigquery : Tree → String

-- AstGateError and CostGuardError by the place that raises them, and an exception of a collaborator
pub data Refusal : Type 0 where
  unparseable not_one_statement not_select select_into forbidden_node : Refusal
  no_where_clause partition_filter_missing over_byte_cap : Refusal
  collaborator_raised : Refusal

pub data Checked {ℓ} (A : Type ℓ) : Type ℓ where
  passed : A → Checked A
  refused : Refusal → Checked A

infixl 5 ◌>>=◌
abbrev pub ◌>>=◌ {ℓ κ} : {A : Type ℓ} {B : Type κ} → Checked A → (A → Checked B) → Checked B
passed a >>= f = f a
refused e >>= f = refused e

-- `_FORBIDDEN`
unfoldable pub is_forbidden : NodeKind → Bool
is_forbidden other_node = false
is_forbidden _ = true

-- `[s for s in statements if s is not None]`
unfoldable pub statements_of {ℓ} : {A : Type ℓ} → List (Option A) → List A
statements_of [] = []
statements_of (none ∷ xs) = statements_of xs
statements_of (some x ∷ xs) = x ∷ statements_of xs

module _ {Tree : Type 0} (sqlglot : Sqlglot Tree) where
  -- `tree.this if isinstance(tree, exp.With) else tree`
  unfoldable pub top_of : Tree → Tree
  top_of tree = if sqlglot.is_with tree then sqlglot.this tree else tree

  unfoldable pub check_tree : Tree → Checked Tree
  unfolding top_of is_forbidden
  check_tree tree =
      if not (sqlglot.is_select (top_of tree))
      then refused not_select
      else if sqlglot.finds_into tree
      then refused select_into
      else if any is_forbidden (sqlglot.walk tree)
      then refused forbidden_node
      else passed tree

  unfoldable pub only_statement : List Tree → Checked Tree
  unfolding check_tree
  only_statement [] = refused not_one_statement
  only_statement (tree ∷ []) = check_tree tree
  only_statement (tree ∷ _ ∷ _) = refused not_one_statement

  -- `assert_read_only`
  unfoldable pub assert_read_only : String → Checked Tree
  unfolding statements_of only_statement
  assert_read_only sql = elim (sqlglot.parse sql) [
    | none ↦ refused unparseable
    | some statements ↦ only_statement (statements_of statements)
  ]

  -- `assert_partition_filter`
  unfoldable pub assert_partition_filter : Tree → String → Checked (Unit {0})
  assert_partition_filter tree partition_col = elim (sqlglot.where_columns tree) [
    | none ↦ refused no_where_clause
    | some cols ↦
        if contains partition_col cols then passed tt else refused partition_filter_missing
  ]

  unfoldable pub source_of : Projection → ProjectionSource
  source_of p =
      if p.is_star
      then record { output_key = "*"; source_columns = []; is_star = true; resolvable = true }
      else record {
        output_key = p.alias_or_name;
        source_columns = p.columns;
        is_star = false;
        resolvable = not (is_empty p.columns) || p.is_column;
      }

  unfoldable pub sources_of : List Projection → List ProjectionSource
  unfolding source_of
  sources_of [] = []
  sources_of (p ∷ ps) = source_of p ∷ sources_of ps

  -- `projection_sources`
  unfoldable pub projection_sources : Tree → List ProjectionSource
  unfolding top_of sources_of
  projection_sources tree =
      if sqlglot.is_select (top_of tree) then sources_of (sqlglot.expressions (top_of tree)) else []

-- `assert_under_byte_cap`
unfoldable pub assert_under_byte_cap : ℕ → ℕ → Checked (Unit {0})
assert_under_byte_cap estimated max_bytes_billed =
    if ltb max_bytes_billed estimated then refused over_byte_cap else passed tt
