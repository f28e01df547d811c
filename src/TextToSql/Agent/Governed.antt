-- ===== src/TextToSql/Agent/Governed.antt =====
-- What a session is shown of the warehouse.
use enterprise_rag_engine.Prelude.{
  String, ◌≡◌, refl, ap, ◌∙◌, true, false, Option, none, some, List, [], map, string_eq, ltb,
  is_empty, Bool-cases, Option-cases, inl, inr,
}
use enterprise_rag_engine.Schemas.{Session, Value}
use enterprise_rag_engine.Governance.Access.{evaluate}
use enterprise_rag_engine.Governance.Filter.{is_allow, is_deny}
use enterprise_rag_engine.TextToSql.ResultMasking.{ColumnPolicy, ProjectionSource, masked_from}
use enterprise_rag_engine.TextToSql.ResultMasking.Conceals.{vary_cell, mask_rows-vary}
use enterprise_rag_engine.TextToSql.Gate.{
  Checked, passed, refused, assert_read_only, assert_under_byte_cap, projection_sources,
}
use enterprise_rag_engine.TextToSql.Warehouse.{
  Row, Call, or_raised, gates, execute, estimate_and_execute, run,
}
use enterprise_rag_engine.TextToSql.Agent.{
  AgentParts, AgentState, CatalogAsset, probe_of, denied_answer, answer_masked, deliver,
  answer_from, run_validated, answer, answer_governed, query_warehouse,
}

-- Rows whose concealed cells are other ones
abbrev pub vary_rows :
    List ColumnPolicy → List ProjectionSource → (String → Value → Value) → List Row → List Row
vary_rows columns ps f = map (map (vary_cell columns ps f))

abbrev map_checked : {A B : Type 0} → (A → B) → Checked A → Checked B
map_checked g (passed a) = passed (g a)
map_checked g (refused e) = refused e

abbrev pub map_some : {A B : Type 0} → (A → B) → Option A → Option B
map_some g none = none
map_some g (some a) = some (g a)

or_raised-map_some :
    {A B : Type 0} (g : A → B) (o : Option A)
    → or_raised (map_some g o) ≡ map_checked g (or_raised o)
or_raised-map_some g none = refl
or_raised-map_some g (some a) = refl

module _ {Tree : Type 0} (parts : AgentParts Tree) (columns : List ColumnPolicy)
    (ps : List ProjectionSource) (f : String → Value → Value) where
  -- The same agent over a warehouse whose concealed cells are other ones
  abbrev pub varied : AgentParts Tree
  varied = record parts {
    guarded_bq = record parts.guarded_bq {
      client = record parts.guarded_bq.client {
        execute =
            λ sql cap. map_some (vary_rows columns ps f) (parts.guarded_bq.client.execute sql cap);
      };
    };
  }

  abbrev vary_result : Checked (List Row) × List Call → Checked (List Row) × List Call
  vary_result (rows, calls) = (map_checked (vary_rows columns ps f) rows, calls)

  estimate_and_execute-varied :
      (bq_sql : String) (calls : List Call)
      → estimate_and_execute varied.guarded_bq bq_sql calls
        ≡ vary_result (estimate_and_execute parts.guarded_bq bq_sql calls)
  unfolding estimate_and_execute execute assert_under_byte_cap
  estimate_and_execute-varied bq_sql calls =
      elim (Option-cases (parts.guarded_bq.client.dry_run_bytes_for bq_sql)) [
        | inl raised ↦ rw (estimate_and_execute, raised) refl
        | inr (estimate, found) ↦
            elim (Bool-cases (ltb parts.guarded_bq.max_bytes_billed estimate)) [
              | inl over ↦ rw (estimate_and_execute, found) (rw over refl)
              | inr under ↦
                  rw (estimate_and_execute, found)
                    (rw under (
                      rw
                        (or_raised-map_some (vary_rows columns ps f) (
                          parts.guarded_bq.client.execute bq_sql parts.guarded_bq.max_bytes_billed))
                        refl))
            ]
      ]

  run-varied :
      (sql : String) (calls : List Call)
      → run varied.guarded_bq sql calls ≡ vary_result (run parts.guarded_bq sql calls)
  unfolding run gates
  run-varied sql calls = go (gates parts.guarded_bq sql) refl
    where
      go :
          (g : Checked Tree)
          → gates parts.guarded_bq sql ≡ g
          → run varied.guarded_bq sql calls ≡ vary_result (run parts.guarded_bq sql calls)
      go (refused e) stopped = rw (run, stopped) refl
      go (passed tree) through =
          rw (run, through)
            (estimate_and_execute-varied (parts.guarded_bq.sqlglot.to_bigquery tree) calls)

  run_validated-varied :
      (question sql : String) (tree : Tree) (st : AgentState)
      → is_empty (masked_from [] columns) ≡ false
      → st.columns ≡ columns
      → projection_sources parts.guarded_bq.sqlglot tree ≡ ps
      → run_validated varied question true sql tree st
        ≡ run_validated parts question true sql tree st
  unfolding run_validated deliver answer_from
  run_validated-varied question sql tree st some_masked same projected =
      ap (deliver varied question true sql (projection_sources parts.guarded_bq.sqlglot tree) st)
        (run-varied sql st.calls)
      ∙ go (run parts.guarded_bq sql st.calls)
    where
      go :
          (r : Checked (List Row) × List Call)
          → deliver varied question true sql
              (projection_sources parts.guarded_bq.sqlglot tree)
              st
              (vary_result r)
            ≡ deliver parts question true sql
                (projection_sources parts.guarded_bq.sqlglot tree)
                st
                r
      go (refused e, calls) = refl
      go (passed raw, calls) =
          rw (same, projected)
            (ap
              (λ rows. (
                answer_masked parts question true sql columns rows,
                record st { calls = calls; columns = columns },
              ))
              (mask_rows-vary raw columns ps f some_masked))

  answer-varied :
      (question : String) (st : AgentState)
      → is_empty (masked_from [] columns) ≡ false
      → st.columns ≡ columns
      → ((sql : String) (tree : Tree)
          → parts.draft_sql question ≡ some sql
          → assert_read_only parts.guarded_bq.sqlglot sql ≡ passed tree
          → projection_sources parts.guarded_bq.sqlglot tree ≡ ps)
      → answer varied question true st ≡ answer parts question true st
  unfolding answer
  answer-varied question st some_masked same projected =
      elim (Option-cases (parts.draft_sql question)) [
        | inl raised ↦ rw (answer, raised) refl
        | inr (sql, drafted) ↦ go sql drafted (assert_read_only parts.guarded_bq.sqlglot sql) refl
      ]
    where
      go :
          (sql : String)
          → parts.draft_sql question ≡ some sql
          → (c : Checked Tree) → assert_read_only parts.guarded_bq.sqlglot sql ≡ c
          → answer varied question true st ≡ answer parts question true st
      go sql drafted (refused e) stopped = rw (answer, drafted) (rw (answer, stopped) refl)
      go sql drafted (passed tree) through =
          rw (answer, drafted)
            (rw (answer, through)
              (run_validated-varied question sql tree st some_masked same
                (projected sql tree drafted through)))

-- A session that is not allowed the asset in full is answered the same whatever stands in the cells
-- of a masked column, of a column computed from one, or of a column whose source is not known, if
-- the asset has a masked column and the drafted query has the projections `ps`. A session that is
-- denied is answered without a query, and no call of the client is made.
pub query_warehouse-varied :
    {Tree : Type 0} (parts : AgentParts Tree) (question : String) (s : Session)
    (asset : CatalogAsset) (st : AgentState) (ps : List ProjectionSource)
    (f : String → Value → Value)
    → is_allow (evaluate (probe_of asset) s).decision ≡ false
    → is_empty (masked_from [] asset.columns) ≡ false
    → ((sql : String) (tree : Tree)
        → parts.draft_sql question ≡ some sql
        → assert_read_only parts.guarded_bq.sqlglot sql ≡ passed tree
        → projection_sources parts.guarded_bq.sqlglot tree ≡ ps)
    → (query_warehouse (varied parts asset.columns ps f) question s asset st
        ≡ query_warehouse parts question s asset st)
      × (is_deny (evaluate (probe_of asset) s).decision ≡ true
          → query_warehouse parts question s asset st ≡ (passed (denied_answer question asset), st))
unfolding query_warehouse answer_governed
query_warehouse-varied parts question s asset st ps f restricted some_masked projected = (
  elim (Bool-cases (is_deny (evaluate (probe_of asset) s).decision)) [
    | inl denied ↦ rw (answer_governed, denied) refl
    | inr admitted ↦
        rw (answer_governed, admitted, restricted)
          (answer-varied parts asset.columns ps f question (record st { columns = asset.columns })
            some_masked refl projected)
  ],
  λ denied. rw (answer_governed, denied) refl,
)
