-- ===== src/TextToSql/Warehouse/Guarded.antt =====
-- What reaches the client of the warehouse.
use enterprise_rag_engine.Prelude.{
  ℕ, ◌≤◌, String, ◌≡◌, refl, sym, ap, ◌∙◌, true, false, Option, none, some, List, [], ◌∷◌, ◌++◌,
  arith, string_eq, any, contains, ltb, All, Bool-cases, Option-cases, ◌⊎◌, inl, inr,
}
use enterprise_rag_engine.TextToSql.Gate.{
  Sqlglot, NodeKind, insert, update, delete, drop, create, alter, merge, command, into, other_node,
  Refusal, Checked, passed, refused, ◌>>=◌, is_forbidden, statements_of, top_of, check_tree,
  only_statement, assert_read_only, assert_partition_filter, assert_under_byte_cap,
}
use enterprise_rag_engine.TextToSql.Warehouse.{
  Row, Call, dry_run, executed, or_raised, GuardedBigQuery, partition_gate, gates, execute,
  estimate_and_execute, run,
}

module _ {Tree : Type 0} (sqlglot : Sqlglot Tree) where
  -- The text is one statement, which is a SELECT, and no node in it writes.
  abbrev pub IsReadOnly : String → Tree → Type 0
  IsReadOnly sql tree =
      (statements : List (Option Tree)) × (sqlglot.parse sql ≡ some statements)
      × (statements_of statements ≡ tree ∷ [])
      × (sqlglot.is_select (top_of sqlglot tree) ≡ true)
      × All (λ kind. kind ≡ other_node) (sqlglot.walk tree)

  -- The WHERE clause names the column.
  abbrev pub IsFiltered : Tree → String → Type 0
  IsFiltered tree col =
      (cols : List String) × (sqlglot.where_columns tree ≡ some cols) × (contains col cols ≡ true)

  not_forbidden : (kind : NodeKind) → is_forbidden kind ≡ false → kind ≡ other_node
  unfolding is_forbidden
  not_forbidden other_node h = refl
  not_forbidden insert h = cc h
  not_forbidden update h = cc h
  not_forbidden delete h = cc h
  not_forbidden drop h = cc h
  not_forbidden create h = cc h
  not_forbidden alter h = cc h
  not_forbidden merge h = cc h
  not_forbidden command h = cc h
  not_forbidden into h = cc h

  none_forbidden :
      (kinds : List NodeKind)
      → any is_forbidden kinds ≡ false
      → All (λ kind. kind ≡ other_node) kinds
  unfolding any
  none_forbidden [] h = tt
  none_forbidden (k ∷ ks) h =
      (not_forbidden k (ground (arith, h)), none_forbidden ks (ground (arith, h)))

  check_tree-passed :
      (tree tree' : Tree)
      → check_tree sqlglot tree ≡ passed tree'
      → (tree ≡ tree')
        × (sqlglot.is_select (top_of sqlglot tree) ≡ true)
        × All (λ kind. kind ≡ other_node) (sqlglot.walk tree)
  unfolding check_tree
  check_tree-passed tree tree' h =
      let clean : any is_forbidden (sqlglot.walk tree) ≡ false = ground (arith, h) in
      (ground (arith, h), ground (arith, h), none_forbidden (sqlglot.walk tree) clean)

  only_statement-passed :
      (trees : List Tree) (tree : Tree)
      → only_statement sqlglot trees ≡ passed tree
      → (trees ≡ tree ∷ [])
        × (sqlglot.is_select (top_of sqlglot tree) ≡ true)
        × All (λ kind. kind ≡ other_node) (sqlglot.walk tree)
  unfolding only_statement
  only_statement-passed [] tree h = cc h
  only_statement-passed (t ∷ []) tree h =
      let (same, select, clean) = check_tree-passed t tree h in rw (← same) (refl, select, clean)
  only_statement-passed (t ∷ u ∷ ts) tree h = cc h

  -- Whatever `assert_read_only` returns is read-only.
  pub assert_read_only-IsReadOnly :
      (sql : String) (tree : Tree)
      → assert_read_only sqlglot sql ≡ passed tree
      → IsReadOnly sql tree
  unfolding assert_read_only
  assert_read_only-IsReadOnly sql tree h = elim (Option-cases (sqlglot.parse sql)) [
    | inl raised ↦ cc (rw (assert_read_only, raised) at h)
    | inr (statements, parsed) ↦
        let (one, select, clean) =
          only_statement-passed (statements_of statements) tree
            (rw (assert_read_only, parsed) at h) in
        (statements, parsed, one, select, clean)
  ]

  assert_partition_filter-IsFiltered :
      (tree : Tree) (col : String)
      → assert_partition_filter sqlglot tree col ≡ passed tt
      → IsFiltered tree col
  unfolding assert_partition_filter
  assert_partition_filter-IsFiltered tree col h = elim (Option-cases (sqlglot.where_columns tree)) [
    | inl no_where ↦ cc (rw (assert_partition_filter, no_where) at h)
    | inr (cols, found) ↦
        let tested = rw (assert_partition_filter, found) at h in
        (cols, found, ground (arith, tested))
  ]

module _ {Tree : Type 0} (guard : GuardedBigQuery Tree) where
  -- What the gates let through
  abbrev pub IsAllowed : String → Tree → Type 0
  IsAllowed sql tree =
      IsReadOnly guard.sqlglot sql tree
      × (guard.require_partition_filter ≡ true → IsFiltered guard.sqlglot tree guard.partition_col)

  -- Nothing but an estimate was asked of the client, and the query is refused.
  abbrev pub IsRefused : List Call → Checked (List Row) × List Call → Type 0
  IsRefused calls (result, calls') =
      (e : Refusal) × (result ≡ refused e)
      × ((calls' ≡ calls) ⊎ ((sql : String) × (calls' ≡ calls ++ dry_run sql ∷ [])))

  -- A query that passed every gate was estimated and executed, under the cap, as the same text.
  abbrev pub IsExecuted : String → List Call → Checked (List Row) × List Call → Type 0
  IsExecuted sql calls (result, calls') =
      (tree : Tree) × (estimate : ℕ) × IsAllowed sql tree
      × (guard.client.dry_run_bytes_for (guard.sqlglot.to_bigquery tree) ≡ some estimate)
      × (estimate ≤ guard.max_bytes_billed)
      × (calls'
          ≡ (calls ++ dry_run (guard.sqlglot.to_bigquery tree) ∷ [])
            ++ executed (guard.sqlglot.to_bigquery tree) guard.max_bytes_billed ∷ [])
      × ((rows : List Row)
          → result ≡ passed rows
          → guard.client.execute (guard.sqlglot.to_bigquery tree) guard.max_bytes_billed
            ≡ some rows)

  Checked-cases :
      {A : Type 0} (c : Checked A) → ((a : A) × (c ≡ passed a)) ⊎ ((e : Refusal) × (c ≡ refused e))
  Checked-cases (passed a) = inl (a, refl)
  Checked-cases (refused e) = inr (e, refl)

  or_raised-passed : {A : Type 0} (o : Option A) {a : A} → or_raised o ≡ passed a → o ≡ some a
  or_raised-passed none h = cc h
  or_raised-passed (some b) h = ground (arith, h)

  >>=-passed :
      {A B : Type 0} (c : Checked A) (f : A → Checked B) {b : B}
      → (c >>= f) ≡ passed b
      → (a : A) × (c ≡ passed a) × (f a ≡ passed b)
  >>=-passed (passed a) f h = (a, refl, h)
  >>=-passed (refused e) f h = cc h

  gates-IsAllowed :
      (sql : String) (tree : Tree) → gates guard sql ≡ passed tree → IsAllowed sql tree
  unfolding gates
  gates-IsAllowed sql tree h =
      let (t, read_only, rest) = >>=-passed (assert_read_only guard.sqlglot sql) _ h in
      let (_, filtered, last) = >>=-passed (partition_gate guard t) (λ _. passed t) rest in
      let same : t ≡ tree = ground (arith, last) in
      (
        assert_read_only-IsReadOnly guard.sqlglot sql tree (read_only ∙ ap passed same),
        λ required. assert_partition_filter-IsFiltered guard.sqlglot tree guard.partition_col (
            ap (λ x. assert_partition_filter guard.sqlglot x guard.partition_col) (sym same)
            ∙ sym (rw (partition_gate, required))
            ∙ filtered),
      )

  executed_lem :
      (sql : String) (tree : Tree) (calls : List Call)
      → IsAllowed sql tree
      → IsRefused calls (estimate_and_execute guard (guard.sqlglot.to_bigquery tree) calls)
        ⊎ IsExecuted sql calls (estimate_and_execute guard (guard.sqlglot.to_bigquery tree) calls)
  unfolding estimate_and_execute execute assert_under_byte_cap
  executed_lem sql tree calls allowed =
      elim (Option-cases (guard.client.dry_run_bytes_for (guard.sqlglot.to_bigquery tree))) [
        | inl raised ↦ inl (rw (estimate_and_execute, raised) (_, refl, inr (_, refl)))
        | inr (estimate, found) ↦ elim (Bool-cases (ltb guard.max_bytes_billed estimate)) [
          | inl over ↦ inl (rw (estimate_and_execute, found) (rw over (_, refl, inr (_, refl))))
          | inr under ↦ inr (
              rw (estimate_and_execute, found)
                (rw under (
                  tree,
                  estimate,
                  allowed,
                  found,
                  ground (arith, under),
                  refl,
                  λ rows h. or_raised-passed _ h,
                )))
        ]
      ]

  -- A run either refuses the query, and then the client was asked for one estimate at most, or it
  -- executes it, and then the query is one SELECT in which no node writes, its WHERE clause names the
  -- partition column if that is required, and the same text was estimated within the cap.
  pub run_gated :
      (sql : String) (calls : List Call)
      → IsRefused calls (run guard sql calls) ⊎ IsExecuted sql calls (run guard sql calls)
  unfolding run
  run_gated sql calls = elim (Checked-cases (gates guard sql)) [
    | inr (e, stopped) ↦ inl (rw (run, stopped) (e, refl, inl refl))
    | inl (tree, through) ↦
        rw (run, through) (executed_lem sql tree calls (gates-IsAllowed sql tree through))
  ]
