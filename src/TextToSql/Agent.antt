-- ===== src/TextToSql/Agent.antt =====
-- src/rag_engine/texttosql/agent.py: TextToSqlAgent.answer, and RAGPipeline.query_warehouse of
-- src/rag_engine/pipeline.py, which decides whether its rows are masked. The generators of queries
-- and of answers are parameters.
pub mod Governed
use enterprise_rag_engine.Prelude.{
  String, Bool, true, false, not, Option, none, some, List, [], ◌∷◌,
}
use enterprise_rag_engine.Schemas.{SecurityContext, EnrichedChunk, Session, Decision}
use enterprise_rag_engine.Governance.Access.{evaluate}
use enterprise_rag_engine.Governance.Filter.{is_allow, is_deny}
use enterprise_rag_engine.TextToSql.ResultMasking.{ColumnPolicy, ProjectionSource, mask_rows}
use enterprise_rag_engine.TextToSql.Gate.{
  Checked, passed, refused, collaborator_raised, assert_read_only, projection_sources,
}
use enterprise_rag_engine.TextToSql.Warehouse.{Row, Call, GuardedBigQuery, run}

pub record SqlAnswer : Type 0 where
  pub question : String
  pub sql : String
  pub rows : List Row
  pub answer : String
  pub masked : Bool
  pub columns : List ColumnPolicy
  pub access_denied : Bool

-- The collaborators of an agent; `none` is an exception.
pub record AgentParts (Tree : Type 0) : Type 0 where
  pub draft_sql : String → Option String
  pub answer_rows : String → List Row → Option String
  pub guarded_bq : GuardedBigQuery Tree

-- The columns of an agent, and the calls that its client has received
pub record AgentState : Type 0 where
  pub columns : List ColumnPolicy
  pub calls : List Call

-- src/rag_engine/catalog/asset.py, as far as it is used here
pub record CatalogAsset : Type 0 where
  pub asset_id : String
  pub security : SecurityContext
  pub columns : List ColumnPolicy

-- The chunk that carries the asset's security context
unfoldable pub probe_of : CatalogAsset → EnrichedChunk
probe_of asset = record {
  chunk_id = asset.asset_id;
  parent_doc_id = asset.asset_id;
  parent_title = asset.asset_id;
  content = "";
  contextual_anchor = "";
  security = asset.security;
  ordinal = 0;
  modality = "text";
  metadata = record { partial_for = none; others = [] };
}

-- The answer to a session that is denied
unfoldable pub denied_answer : String → CatalogAsset → SqlAnswer
denied_answer question asset = record {
  question = question;
  sql = "";
  rows = [];
  answer = "You are not authorized to access this data.";
  masked = true;
  columns = asset.columns;
  access_denied = true;
}

module _ {Tree : Type 0} (parts : AgentParts Tree) where
  -- `answer` from the masked rows on
  unfoldable pub answer_masked :
      String → Bool → String → List ColumnPolicy → List Row → Checked SqlAnswer
  answer_masked question mask sql columns rows = elim (parts.answer_rows question rows) [
    | none ↦ refused collaborator_raised
    | some text ↦ passed (record {
      question = question;
      sql = sql;
      rows = rows;
      answer = text;
      masked = mask;
      columns = columns;
      access_denied = false;
    })
  ]

  -- `answer` from the rows on
  unfoldable pub answer_from :
      String
      → Bool
      → String
      → List ProjectionSource
      → List ColumnPolicy
      → List Row
      → Checked SqlAnswer
  unfolding answer_masked
  answer_from question mask sql projections columns raw_rows =
      answer_masked question mask sql columns (mask_rows raw_rows columns mask (some projections))

  -- `answer` from what the guarded client returned on, and the calls after it
  unfoldable pub deliver :
      String
      → Bool
      → String
      → List ProjectionSource
      → AgentState
      → Checked (List Row) × List Call
      → Checked SqlAnswer × AgentState
  unfolding answer_from
  deliver question mask sql projections st (refused e, calls) =
      (refused e, record st { calls = calls })
  deliver question mask sql projections st (passed raw_rows, calls) =
      (answer_from question mask sql projections st.columns raw_rows, record st { calls = calls })

  -- `answer` from the validated statement on
  unfoldable pub run_validated :
      String → Bool → String → Tree → AgentState → Checked SqlAnswer × AgentState
  unfolding deliver
  run_validated question mask sql tree st =
      deliver question mask sql (projection_sources parts.guarded_bq.sqlglot tree) st
        (run parts.guarded_bq sql st.calls)

  -- `TextToSqlAgent.answer`
  unfoldable pub answer : String → Bool → AgentState → Checked SqlAnswer × AgentState
  unfolding run_validated
  answer question mask st = elim (parts.draft_sql question) [
    | none ↦ (refused collaborator_raised, st)
    | some sql ↦ elim (assert_read_only parts.guarded_bq.sqlglot sql) [
      | refused e ↦ (refused e, st)
      | passed tree ↦ run_validated question mask sql tree st
    ]
  ]

  -- `query_warehouse` after the decision
  unfoldable pub answer_governed :
      String → CatalogAsset → AgentState → Decision → Checked SqlAnswer × AgentState
  unfolding denied_answer is_deny is_allow answer
  answer_governed question asset st decision = elim (is_deny decision) [
    | true ↦ (passed (denied_answer question asset), st)
    | false ↦ answer question (not (is_allow decision)) (record st { columns = asset.columns })
  ]

  -- `RAGPipeline.query_warehouse`
  unfoldable pub query_warehouse :
      String → Session → CatalogAsset → AgentState → Checked SqlAnswer × AgentState
  unfolding answer_governed probe_of
  query_warehouse question session asset st =
      answer_governed question asset st (evaluate (probe_of asset) session).decision
