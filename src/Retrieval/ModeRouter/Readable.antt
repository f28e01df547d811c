-- ===== src/Retrieval/ModeRouter/Readable.antt =====
-- What a mode returns under the local engine.
use enterprise_rag_engine.Prelude.{
  String, ◌≡◌, refl, sym, ap, ◌∙◌, true, false, some, List, [], ◌∷◌, ◌==◌, string_eq, All, ◌⊎◌, inl,
  inr, contains, Bool-cases,
}
use enterprise_rag_engine.Schemas.{EnrichedChunk, Session}
use enterprise_rag_engine.Governance.Access.{evaluate}
use enterprise_rag_engine.Governance.Filter.{is_deny}
use enterprise_rag_engine.Governance.Allowlist.{in_process_ids}
use enterprise_rag_engine.Governance.Rebac.{Facts, FactStore, facts_of}
use enterprise_rag_engine.Governance.Rebac.Parity.{IsGoverned, Holds}
use enterprise_rag_engine.Retrieval.ModeRouter.{
  Backend, authorized_by, rows_under, route_query, route_query-local,
}

-- Some chunk with the id is not denied to the session.
abbrev pub IsReadable : Session → List EnrichedChunk → String → Type 0
IsReadable s [] id = ⊥
IsReadable s (c ∷ cs) id =
    ((c.chunk_id ≡ id) × (is_deny (evaluate c s).decision ≡ false)) ⊎ IsReadable s cs id

in_process_ids-IsReadable :
    (s : Session) (cs : List EnrichedChunk) (id : String)
    → contains id (in_process_ids s cs) ≡ true
    → IsReadable s cs id
unfolding in_process_ids contains
in_process_ids-IsReadable s [] id h = cc h
in_process_ids-IsReadable s (c ∷ cs) id h = elim (Bool-cases (is_deny (evaluate c s).decision)) [
  | inl denied ↦ inr (in_process_ids-IsReadable s cs id (rw denied at h))
  | inr kept ↦ elim (Bool-cases (id == c.chunk_id)) [
    | inl same ↦ inl (sym ((string_eq.beq_iff id c.chunk_id).0 same), kept)
    | inr other ↦ inr (in_process_ids-IsReadable s cs id (rw (kept, other) at h))
  ]
]

in_process_ids-denied :
    (s : Session) (cs : List EnrichedChunk)
    → All (λ c. is_deny (evaluate c s).decision ≡ true) cs
    → in_process_ids s cs ≡ []
unfolding in_process_ids
in_process_ids-denied s [] h = refl
in_process_ids-denied s (c ∷ cs) (denied, h) = rw denied (in_process_ids-denied s cs h)

module _ {Row : Type 0} where
  -- A query under an allowlist that names some chunk returns only rows of the chunks that it names.
  -- Under an empty one, which the store may take for no restriction, it may return anything.
  abbrev pub IsRestricted : (Row → String) → (String → List String → List Row) → Type 0
  IsRestricted row_id query =
      (arg id : String) (ids : List String)
      → All (λ r. contains (row_id r) (id ∷ ids) ≡ true) (query arg (id ∷ ids))

  rows-IsReadable :
      (row_id : Row → String) (s : Session) (cs : List EnrichedChunk) (ids : List String)
      → in_process_ids s cs ≡ ids
      → (rows : List Row) → All (λ r. contains (row_id r) ids ≡ true) rows
      → All (λ r. IsReadable s cs (row_id r)) rows
  rows-IsReadable row_id s cs ids e [] h = tt
  rows-IsReadable row_id s cs ids e (r ∷ rows) (named, h) = (
    in_process_ids-IsReadable s cs (row_id r) (ap (contains (row_id r)) e ∙ named),
    rows-IsReadable row_id s cs ids e rows h,
  )

  rows_under-IsReadable :
      (row_id : Row → String) (query : String → List String → List Row) (arg : String) (s : Session)
      (cs : List EnrichedChunk)
      → IsRestricted row_id query
      → (ids : List String) → in_process_ids s cs ≡ ids
      → (rows : List Row) × (rows_under query arg (some ids) ≡ some rows)
        × All (λ r. IsReadable s cs (row_id r)) rows
        × (All (λ c. is_deny (evaluate c s).decision ≡ true) cs → rows ≡ [])
  rows_under-IsReadable row_id query arg s cs restricted [] e = ([], refl, tt, λ h. refl)
  rows_under-IsReadable row_id query arg s cs restricted (id ∷ ids) e = (
    query arg (id ∷ ids),
    refl,
    rows-IsReadable row_id s cs (id ∷ ids) e (query arg (id ∷ ids)) (restricted arg id ids),
    λ h. let none_left : [] ≡ id ∷ ids = sym (in_process_ids-denied s cs h) ∙ e in cc none_left,
  )

  -- Under the local engine a mode does not raise, and returns only rows of chunks that the session is
  -- not denied, and no row at all if it is denied every chunk, whatever the store answers to an empty
  -- allowlist. The store keeps to an allowlist that is not empty, the chunks have recognised classes
  -- and each id has one set of facts, which the engine holds or does not have yet.
  pub route_query-IsReadable :
      (row_id : Row → String) (query : String → List String → List Row) (arg : String)
      (view : String → Facts) (s : Session) (chunks : List EnrichedChunk) (store : FactStore)
      → IsRestricted row_id query
      → All (λ c. IsGoverned c s × (facts_of c ≡ view c.chunk_id)) chunks
      → Holds view store
      → (rows : List Row) × ((route_query query arg s chunks (Backend.local_rebac store)).1
          ≡ some rows)
        × All (λ r. IsReadable s chunks (row_id r)) rows
        × (All (λ c. is_deny (evaluate c s).decision ≡ true) chunks → rows ≡ [])
  unfolding route_query authorized_by
  route_query-IsReadable row_id query arg view s chunks store restricted good holds =
      let (rows, e, readable, closed) =
        rows_under-IsReadable row_id query arg s chunks restricted (in_process_ids s chunks) refl in
      (rows, route_query-local query arg view s chunks store good holds ∙ e, readable, closed)
