-- ===== src/Pipeline/Hits.antt =====
-- What a response from the cache rests on, what it shows, and that the cache stays well-formed.
use mathlib.Core.Path.{subst}
use enterprise_rag_engine.Prelude.{
  String, ◌≡◌, refl, sym, ap, ◌∙◌, Bool, true, false, Option, none, some, List, [], ◌∷◌, map,
  string_eq, ◌==◌, arith, contains, keep, Bool-cases, ◌⊎◌, inl, inr,
}
use enterprise_rag_engine.Prelude.Dict.{Dict, lookup, insert, lookup-insert}
use enterprise_rag_engine.Prelude.DistinctKeys.{HasDistinctKeys}
use enterprise_rag_engine.Schemas.{EnrichedChunk, ScoredChunk, Session, RagResponse}
use enterprise_rag_engine.Governance.Access.{evaluate}
use enterprise_rag_engine.Governance.Filter.{is_deny}
use enterprise_rag_engine.Governance.Filter.Spec.{admits, redacted, apply_lem, redact_chunk_keeps}
use enterprise_rag_engine.Governance.Citations.{citation_of, build_citations}
use enterprise_rag_engine.Cache.Semantic.{Cache, serve}
use enterprise_rag_engine.Cache.Semantic.Bounded.{put_lem, move_to_end-HasDistinctKeys}
use enterprise_rag_engine.Pipeline.{
  Parts, RagPipeline, Clock, by_id, stored_chunks, scored, id_of, govern_fn, warm_response,
  remember, query,
}
use enterprise_rag_engine.Pipeline.Cases.{HasValidCache, IsRaised, IsCold, IsWarm, query_cases}

-- `x` is an element of a list.
abbrev pub Occurs : {A : Type 0} → A → List A → Type 0
Occurs x [] = ⊥
Occurs x (y ∷ ys) = (x ≡ y) ⊎ Occurs x ys

by_id-Occurs :
    (id : String) (d : Dict String EnrichedChunk) (cs : List EnrichedChunk) (c : EnrichedChunk)
    → lookup id (by_id d cs) ≡ some c
    → (lookup id d ≡ some c) ⊎ (Occurs c cs × (c.chunk_id ≡ id))
unfolding by_id
by_id-Occurs id d [] c h = inl h
by_id-Occurs id d (x ∷ cs) c h = elim (by_id-Occurs id (insert x.chunk_id x d) cs c h) [
  | inr (later, same) ↦ inr (inr later, same)
  | inl here ↦ elim (Bool-cases (x.chunk_id == id)) [
    | inl same ↦
        let e : x ≡ c = ground (arith, here, lookup-insert x.chunk_id id x d, same) in
        inr (
          inl (sym e),
          ap (λ (y : EnrichedChunk). y.chunk_id) (sym e) ∙ (string_eq.beq_iff x.chunk_id id).0 same,
        )
    | inr other ↦ inl (ground (arith, here, lookup-insert x.chunk_id id x d, other))
  ]
]

-- The chunks of the pipeline under their ids
by_id-keyed :
    (cs : List EnrichedChunk) (id : String) (c : EnrichedChunk)
    → lookup id (by_id [] cs) ≡ some c
    → Occurs c cs × (c.chunk_id ≡ id)
unfolding lookup
by_id-keyed cs id c h = elim (by_id-Occurs id [] cs c h) [
  | inl none_yet ↦ cc none_yet
  | inr found ↦ found
]

-- The chunk of the pipeline that has an id, and is not denied to the session
abbrev pub IsAdmitted : List EnrichedChunk → Session → String → Type 0
IsAdmitted chunks s id =
    (c : EnrichedChunk) × Occurs c chunks
    × (c.chunk_id ≡ id)
    × (is_deny (evaluate c s).decision ≡ false)

kept-IsAdmitted :
    (chunks : List EnrichedChunk) (s : Session) (id : String) (ids : List String)
    → contains id
        (map id_of (map (redacted s) (keep (admits s) (stored_chunks (by_id [] chunks) ids))))
      ≡ true
    → IsAdmitted chunks s id
unfolding stored_chunks keep contains
kept-IsAdmitted chunks s id [] h = cc h
kept-IsAdmitted chunks s id (i ∷ ids) h =
    go (lookup i (by_id [] chunks)) refl (kept-IsAdmitted chunks s id ids)
  where
    go :
        (o : Option EnrichedChunk)
        → lookup i (by_id [] chunks) ≡ o
        → (contains id (
                map id_of
                  (map (redacted s) (keep (admits s) (stored_chunks (by_id [] chunks) ids))))
              ≡ true
            → IsAdmitted chunks s id)
        → IsAdmitted chunks s id
    go none e later = later (rw (stored_chunks, e) at h)
    go (some c) e later =
        let (here, key) = by_id-keyed chunks i c e in
        elim (Bool-cases (is_deny (evaluate c s).decision)) [
          | inl denied ↦ later (rw (stored_chunks, e, denied) at h)
          | inr kept ↦
              let first = rw (stored_chunks, e, kept) at h in
              let named = (redact_chunk_keeps (scored c) (evaluate c s)).0 in
              elim (Bool-cases (id == c.chunk_id)) [
                | inl same ↦ (c, here, sym ((string_eq.beq_iff id c.chunk_id).0 same), kept)
                | inr other ↦ later (sym (rw (named, other)) ∙ first)
              ]
        ]

govern_fn-IsAdmitted :
    (chunks : List EnrichedChunk) (ids : List String) (s : Session) (id : String)
    → contains id (govern_fn chunks ids s) ≡ true
    → IsAdmitted chunks s id
unfolding govern_fn
govern_fn-IsAdmitted chunks ids s id h = kept-IsAdmitted chunks s id ids (
    sym (ap (λ l. contains id (map id_of l)) (apply_lem (stored_chunks (by_id [] chunks) ids) s).0)
    ∙ h)

Occurs-map :
    {A B : Type 0} (g : A → B) (x : A) (xs : List A) → Occurs x xs → Occurs (g x) (map g xs)
Occurs-map g x [] h = h
Occurs-map g x (y ∷ xs) (inl same) = inl (ap g same)
Occurs-map g x (y ∷ xs) (inr later) = inr (Occurs-map g x xs later)

Occurs-keep :
    {A : Type 0} (p : A → Bool) (x : A) (xs : List A)
    → p x ≡ true
    → Occurs x xs
    → Occurs x (keep p xs)
unfolding keep
Occurs-keep p x [] holds h = h
Occurs-keep p x (y ∷ xs) holds (inl same) = rw (ap p (sym same) ∙ holds) (inl same)
Occurs-keep p x (y ∷ xs) holds (inr later) = elim (Bool-cases (p y)) [
  | inl kept ↦ rw kept (inr (Occurs-keep p x xs holds later))
  | inr dropped ↦ rw dropped (Occurs-keep p x xs holds later)
]

module _ {Num Vec : Type 0} (parts : Parts Num Vec) (clock : Clock Num) where
  -- A query over a cache with distinct keys raises, is answered from candidates of the session's own
  -- retrieval, or is served from an entry of the session's own scope, similar enough and not
  -- expired; in that case every chunk that the answer rests on is now in the pipeline and not denied
  -- to the session.
  pub query-IsAdmitted :
      (question : String) (s : Session) (st : RagPipeline Num Vec)
      → HasValidCache st.cache
      → IsRaised parts clock st (query parts clock question s st)
        ⊎ (IsCold parts clock question s st (query parts clock question s st)
            ⊎ ((hit : IsWarm parts clock question s st (query parts clock question s st))
                × ((id : String) → contains id hit.3.chunk_ids ≡ true → IsAdmitted st.chunks s id)))
  query-IsAdmitted question s st valid = elim (query_cases parts clock question s st valid) [
    | inl raised ↦ inl raised
    | inr (inl done) ↦ inr (inl done)
    | inr (inr hit) ↦ inr (
        inr (
          hit,
          λ id listed. govern_fn-IsAdmitted st.chunks hit.3.chunk_ids s id (hit.6 id ∙ listed),
        ))
  ]

  remember-HasValidCache :
      (question : String) (s : Session) (admitted : List ScoredChunk) (r : RagResponse)
      (o : Option (Cache Num Vec))
      → HasValidCache o
      → HasValidCache (remember parts clock question s admitted r o)
  unfolding remember
  remember-HasValidCache question s admitted r none valid = tt
  remember-HasValidCache question s admitted r (some cache) valid =
      (put_lem parts.setup clock.created clock.evicted question s (map id_of admitted) r.answer
        r.n_withheld cache valid).2

  -- A query leaves the keys of the cache distinct, and the chunks and the index as they were.
  pub query-HasValidCache :
      (question : String) (s : Session) (st : RagPipeline Num Vec)
      → HasValidCache st.cache
      → HasValidCache (query parts clock question s st).1.cache
        × ((query parts clock question s st).1.chunks ≡ st.chunks)
        × ((query parts clock question s st).1.indexed ≡ st.indexed)
  unfolding serve
  query-HasValidCache question s st valid = elim (query_cases parts clock question s st valid) [
    | inl (_, chunks, indexed, cache) ↦ (rw cache valid, chunks, indexed)
    | inr (inl (cs, answer, _, _, done)) ↦
        rw done (remember-HasValidCache question s _ _ st.cache valid, refl, refl)
    | inr (inr (cache, sim, k, e, has, _, _, done)) ↦
        let distinct : HasDistinctKeys cache.entries = subst HasValidCache has valid in
        rw done (move_to_end-HasDistinctKeys parts.setup k e cache.entries distinct, refl, refl)
  ]

  -- A response from the cache cites every chunk of the pipeline that its entry names with a quote
  -- of the chunk's own content, whatever the session may see of it.
  pub query_raw_citations :
      (question : String) (s : Session) (st : RagPipeline Num Vec)
      (hit : IsWarm parts clock question s st (query parts clock question s st)) (c : EnrichedChunk)
      → Occurs c st.chunks
      → contains c.chunk_id hit.3.chunk_ids ≡ true
      → (r : RagResponse) × ((query parts clock question s st).0 ≡ some r)
        × Occurs (citation_of parts.setup.sha256 parts.max_quote_chars (scored c)) r.citations
  unfolding warm_response build_citations
  query_raw_citations question s st hit c here named =
      let (cache, sim, k, e, has, _, governed, done) = hit in
      (
        _,
        ap (λ o. o.0) done,
        Occurs-map (citation_of parts.setup.sha256 parts.max_quote_chars) (scored c) _ (
            Occurs-map scored c _ (
              Occurs-keep
                (λ (x : EnrichedChunk). contains x.chunk_id (govern_fn st.chunks e.chunk_ids s)) c
                st.chunks (governed c.chunk_id ∙ named) here)),
      )
