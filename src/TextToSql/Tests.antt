-- ===== src/TextToSql/Tests.antt =====
-- A query that renames a masked column.
use enterprise_rag_engine.Prelude.{
  String, ◌≡◌, refl, true, false, not, ◌==◌, if◌then◌else◌, none, some, List, [], ◌∷◌, string_eq,
  lower, contains, ◌⊎◌,
}
use enterprise_rag_engine.Prelude.Dict.{Dict, lookup, insert}
use enterprise_rag_engine.Schemas.{Value}
use enterprise_rag_engine.Governance.Masking.{mask_reason_of, mask_value}
use enterprise_rag_engine.TextToSql.ResultMasking.{
  ColumnPolicy, ProjectionSource, reason_token, token_of, masked_from, first_hit, redaction_of,
  redact_from, policy_for, mask_cell, mask_rows,
}
use enterprise_rag_engine.Schemas.{Session, is_public}
use enterprise_rag_engine.Governance.Access.{evaluate, evaluate_pii}
use enterprise_rag_engine.Governance.Filter.{is_allow, is_deny}
use enterprise_rag_engine.TextToSql.Gate.{
  Sqlglot, NodeKind, other_node, passed, refused, not_select, statements_of, top_of, check_tree,
  only_statement, assert_read_only, source_of, sources_of, projection_sources,
}
use enterprise_rag_engine.TextToSql.Warehouse.{GuardedBigQuery, gates, run}
use enterprise_rag_engine.TextToSql.Warehouse.Guarded.{
  IsRefused, IsExecuted, assert_read_only-IsReadOnly, run_gated,
}
use enterprise_rag_engine.TextToSql.Agent.{
  AgentParts, AgentState, CatalogAsset, probe_of, denied_answer, query_warehouse,
}
use enterprise_rag_engine.TextToSql.Agent.Governed.{varied, query_warehouse-varied}

abbrev columns : List ColumnPolicy
columns = record { name = "Email"; pii = true; masked = true; mask_reason = "PII_MASK" } ∷ []

abbrev projections : List ProjectionSource
projections =
    record {
      output_key = "contact";
      source_columns = "email" ∷ [];
      is_star = false;
      resolvable = true;
    }
    ∷ record {
      output_key = "city";
      source_columns = "city" ∷ [];
      is_star = false;
      resolvable = true;
    }
    ∷ []

abbrev rows : List (Dict String Value)
rows = (("Contact", Value.text "jane@example.com") ∷ ("city", Value.text "Pune") ∷ []) ∷ []

columns_masked :
    mask_rows rows columns true (some projections)
    ≡ (("Contact", Value.text "[REDACTED]") ∷ ("city", Value.text "Pune") ∷ []) ∷ []
unfolding mask_rows masked_from redact_from redaction_of first_hit mask_cell policy_for token_of
    reason_token mask_reason_of mask_value lookup insert lower
columns_masked = refl

abbrev another : String → Value → Value
another key v = Value.text "joe@example.com"

-- A parser that knows two statements
abbrev sqlglot : Sqlglot String
sqlglot = record {
  parse = λ sql. some (some sql ∷ none ∷ []);
  is_with = λ tree. false;
  this = λ tree. tree;
  is_select = λ tree. not (tree == "DROP TABLE rides");
  finds_into = λ tree. false;
  walk = λ tree. if tree == "DROP TABLE rides" then NodeKind.drop ∷ [] else other_node ∷ [];
  where_columns = λ tree. some ("pickup_day" ∷ []);
  expressions = λ tree.
      record {
        is_star = false;
        is_column = true;
        columns = "email" ∷ [];
        alias_or_name = "contact";
      }
      ∷ record { is_star = false; is_column = true; columns = "city" ∷ []; alias_or_name = "city" }
      ∷ [];
  to_bigquery = λ tree. tree;
}

abbrev guard : GuardedBigQuery String
guard = record {
  sqlglot = sqlglot;
  client = record { dry_run_bytes_for = λ sql. some 10; execute = λ sql cap. some rows };
  partition_col = "pickup_day";
  max_bytes_billed = 100;
  require_partition_filter = true;
}

run_gated_example :
    IsRefused guard [] (run guard "SELECT email AS contact" [])
    ⊎ IsExecuted guard "SELECT email AS contact" [] (run guard "SELECT email AS contact" [])
run_gated_example = run_gated guard "SELECT email AS contact" []

drop_refused : run guard "DROP TABLE rides" [] ≡ (refused not_select, [])
unfolding run gates assert_read_only only_statement check_tree top_of statements_of
drop_refused = refl

abbrev agent : AgentParts String
agent = record {
  draft_sql = λ question. some "SELECT email AS contact";
  answer_rows = λ question rows. some "one row";
  guarded_bq = guard;
}

abbrev asset : CatalogAsset
asset = record {
  asset_id = "rides";
  security = record {
    allowed_roles = [];
    clearance_level = 2;
    owner_department = "ops";
    sensitivity_class = "D";
    need_to_know_roles = [];
  };
  columns = columns;
}

abbrev analyst : Session
analyst = record { user_id = "u"; roles = []; clearance_level = 3 }

abbrev idle : AgentState
idle = record { columns = []; calls = [] }

query_projections :
    (sql tree : String)
    → agent.draft_sql "who?" ≡ some sql
    → assert_read_only sqlglot sql ≡ passed tree
    → projection_sources sqlglot tree ≡ projections
unfolding projection_sources top_of sources_of source_of
query_projections sql tree drafted read =
    let (_, _, _, select, _) = assert_read_only-IsReadOnly sqlglot sql tree read in rw select refl

query_warehouse-varied_example :
    (query_warehouse (varied agent columns projections another) "who?" analyst asset idle
      ≡ query_warehouse agent "who?" analyst asset idle)
    × (is_deny (evaluate (probe_of asset) analyst).decision ≡ true
        → query_warehouse agent "who?" analyst asset idle
          ≡ (passed (denied_answer "who?" asset), idle))
unfolding masked_from insert lower is_allow evaluate evaluate_pii is_public probe_of contains
query_warehouse-varied_example =
    query_warehouse-varied agent "who?" analyst asset idle projections another refl refl
      query_projections
