-- ===== src/TextToSql/Warehouse.antt =====
-- src/rag_engine/connectors/bigquery.py: GuardedBigQuery. The client is a parameter; its calls are
-- logged, and `none` is an exception of it.
pub mod Guarded
use enterprise_rag_engine.Prelude.{
  ℕ, String, Bool, true, false, Option, none, some, List, [], ◌∷◌, ◌++◌, if◌then◌else◌,
}
use enterprise_rag_engine.Prelude.Dict.{Dict}
use enterprise_rag_engine.Schemas.{Value}
use enterprise_rag_engine.TextToSql.Gate.{
  Sqlglot, Checked, passed, refused, collaborator_raised, ◌>>=◌, assert_read_only,
  assert_partition_filter, assert_under_byte_cap,
}

abbrev pub Row : Type 0
Row = Dict String Value

-- `BigQueryClient`
pub record BigQueryClient : Type 0 where
  pub dry_run_bytes_for : String → Option ℕ
  pub execute : String → ℕ → Option (List Row)

-- A call that the client has received
pub data Call : Type 0 where
  dry_run : String → Call
  executed : String → ℕ → Call

pub record GuardedBigQuery (Tree : Type 0) : Type 0 where
  pub sqlglot : Sqlglot Tree
  pub client : BigQueryClient
  pub partition_col : String
  pub max_bytes_billed : ℕ
  pub require_partition_filter : Bool

abbrev pub or_raised {ℓ} : {A : Type ℓ} → Option A → Checked A
or_raised none = refused collaborator_raised
or_raised (some a) = passed a

module _ {Tree : Type 0} (guard : GuardedBigQuery Tree) where
  -- `if self.require_partition_filter: assert_partition_filter(...)`
  unfoldable pub partition_gate : Tree → Checked (Unit {0})
  partition_gate tree =
      if guard.require_partition_filter
      then assert_partition_filter guard.sqlglot tree guard.partition_col
      else passed tt

  -- The gates before the client is called
  unfoldable pub gates : String → Checked Tree
  unfolding partition_gate
  gates sql =
      assert_read_only guard.sqlglot sql >>= λ tree. partition_gate tree >>= λ _. passed tree

  -- `self.client.execute(bq_sql, self.max_bytes_billed)`
  unfoldable pub execute : String → List Call → Checked (List Row) × List Call
  execute bq_sql calls = (
    or_raised (guard.client.execute bq_sql guard.max_bytes_billed),
    calls ++ executed bq_sql guard.max_bytes_billed ∷ [],
  )

  -- From the dry run on
  unfoldable pub estimate_and_execute : String → List Call → Checked (List Row) × List Call
  unfolding execute
  estimate_and_execute bq_sql calls =
      let calls' = calls ++ dry_run bq_sql ∷ [] in
      elim (guard.client.dry_run_bytes_for bq_sql) [
        | none ↦ (refused collaborator_raised, calls')
        | some estimate ↦ elim (assert_under_byte_cap estimate guard.max_bytes_billed) [
          | refused e ↦ (refused e, calls')
          | passed _ ↦ execute bq_sql calls'
        ]
      ]

  -- `GuardedBigQuery.run`
  unfoldable pub run : String → List Call → Checked (List Row) × List Call
  unfolding gates estimate_and_execute
  run sql calls = elim (gates sql) [
    | refused e ↦ (refused e, calls)
    | passed tree ↦ estimate_and_execute (guard.sqlglot.to_bigquery tree) calls
  ]
