-- ===== src/Retrieval/TurboVec/Admitted.antt =====
-- The vector path returns nothing that the session is denied.
use enterprise_rag_engine.Prelude.{
  ℕ, String, ◌≡◌, sym, ap, ◌∙◌, true, false, Option, some, List, [], ◌∷◌, ◌==◌, string_eq, nat_eq,
  contains, is_empty, All, arith, Bool-cases, Option-cases, inl, inr,
}
use enterprise_rag_engine.Prelude.Dict.{lookup}
use enterprise_rag_engine.Schemas.{Float, EnrichedChunk, Session, ScoredChunk}
use enterprise_rag_engine.Governance.Access.{evaluate, partial_roles}
use enterprise_rag_engine.Governance.Access.Gates.{decision-evaluate}
use enterprise_rag_engine.Governance.Filter.{is_deny}
use enterprise_rag_engine.Governance.Allowlist.{in_process_ids, authorized_chunk_ids}
use enterprise_rag_engine.Retrieval.IdMap.{IdTable, to_chunk_id}
use enterprise_rag_engine.Retrieval.IdMap.Bijection.{IsBijection}
use enterprise_rag_engine.Retrieval.TurboVec.{
  VectorHit, AnnSearch, allowed_numbers, resolve, search, hydrate, Parts, retrieve_for_session,
}

-- The vector index returns only numbers of the allowlist.
abbrev pub IsFiltered : {Query : Type 0} → AnnSearch Query → Type 0
IsFiltered {Query} ann =
    (q : Query) (k : ℕ) (allow : List ℕ)
    → All (λ x. contains x.1 allow ≡ true) (ann q k (some allow))

-- The reranker returns some of the candidates, with whatever scores.
abbrev pub Picks : (String → List ScoredChunk → ℕ → List ScoredChunk) → Type 1
Picks rerank =
    (P : EnrichedChunk → Type 0) (query : String) (cs : List ScoredChunk) (k : ℕ)
    → All (λ sc. P sc.chunk) cs
    → All (λ sc. P sc.chunk) (rerank query cs k)

-- What the source gives for an id has the access data that it lists for the id.
abbrev pub AgreesWith : EnrichedChunk → EnrichedChunk → Type 0
AgreesWith c listed =
    (listed.security ≡ c.security) × (partial_roles listed.metadata ≡ partial_roles c.metadata)

abbrev pub IsConsistent : {Query : Type 0} → Parts Query → Type 0
IsConsistent parts =
    (id : String) (c : EnrichedChunk)
    → parts.get_chunk id ≡ some c
    → All (λ listed. listed.chunk_id ≡ id → AgreesWith c listed) parts.all_chunk_security

allowed_numbers_lem :
    (m : IdTable) (ids : List String) (u : ℕ)
    → contains u (allowed_numbers m ids) ≡ true
    → (id : String) × (contains id ids ≡ true) × (lookup id m.fwd ≡ some u)
unfolding allowed_numbers contains
allowed_numbers_lem m [] u h = ground (arith, h)
allowed_numbers_lem m (id ∷ ids) u h = elim (Option-cases (lookup id m.fwd)) [
  | inl absent ↦
      let (j, inside, found) = allowed_numbers_lem m ids u (rw (allowed_numbers, absent) at h) in
      (j, ground (arith, inside), found)
  | inr (v, present) ↦ elim (Bool-cases (u == v)) [
    | inl same ↦ (
      id,
      ground (arith, string_eq.beq_iff id id),
      present ∙ ap some (sym ((nat_eq.beq_iff u v).0 same)),
    )
    | inr other ↦
        let (j, inside, found) =
          allowed_numbers_lem m ids u (rw (allowed_numbers, present, contains, other) at h) in
        (j, ground (arith, inside), found)
  ]
]

resolve_lem :
    (m : IdTable) (ids : List String) (found : List (Float × ℕ))
    → IsBijection m
    → All (λ x. contains x.1 (allowed_numbers m ids) ≡ true) found
    → All (λ (hit : VectorHit). contains hit.chunk_id ids ≡ true) (resolve m found)
unfolding resolve to_chunk_id
resolve_lem m ids [] ok h = tt
resolve_lem m ids ((score, u) ∷ found) ok (inside, h) = elim (Option-cases (lookup u m.rev)) [
  | inl absent ↦ rw (resolve, absent) (resolve_lem m ids found ok h)
  | inr (id, named) ↦
      let (j, listed, there) = allowed_numbers_lem m ids u inside in
      let same : some j ≡ some id = sym (ok.there j u there).0 ∙ named in
      let name : j ≡ id = ground (arith, same) in
      rw (resolve, named)
        (ap (λ k. contains k ids) (sym name) ∙ listed, resolve_lem m ids found ok h)
]

decide-AgreesWith :
    (c listed : EnrichedChunk) (s : Session)
    → AgreesWith c listed
    → (evaluate listed s).decision ≡ (evaluate c s).decision
decide-AgreesWith c listed s (sec, scope) =
    decision-evaluate listed s ∙ (rw (sec, scope)) ∙ sym (decision-evaluate c s)

in_process_ids-admits :
    (s : Session) (c : EnrichedChunk) (id : String) (cs : List EnrichedChunk)
    → contains id (in_process_ids s cs) ≡ true
    → All (λ listed. listed.chunk_id ≡ id → AgreesWith c listed) cs
    → is_deny (evaluate c s).decision ≡ false
unfolding in_process_ids contains
in_process_ids-admits s c id [] h agree = ground (arith, h)
in_process_ids-admits s c id (listed ∷ cs) h (here, agree) =
    elim (Bool-cases (is_deny (evaluate listed s).decision)) [
      | inl denied ↦ in_process_ids-admits s c id cs (rw denied at h) agree
      | inr kept ↦ elim (Bool-cases (id == listed.chunk_id)) [
        | inl same ↦
            ap is_deny (
              sym (
                decide-AgreesWith c listed s
                  (here (sym ((string_eq.beq_iff id listed.chunk_id).0 same)))))
            ∙ kept
        | inr other ↦ in_process_ids-admits s c id cs (rw (kept, other) at h) agree
      ]
    ]

hydrate_lem :
    (D : EnrichedChunk → Type 0) (get_chunk : String → Option EnrichedChunk) (ids : List String)
    (hits : List VectorHit)
    → ((id : String) (c : EnrichedChunk) → get_chunk id ≡ some c → contains id ids ≡ true → D c)
    → All (λ (hit : VectorHit). contains hit.chunk_id ids ≡ true) hits
    → All (λ sc. D sc.chunk) (hydrate get_chunk hits)
unfolding hydrate
hydrate_lem D get_chunk ids [] good h = tt
hydrate_lem D get_chunk ids (hit ∷ hits) good (inside, h) =
    elim (Option-cases (get_chunk hit.chunk_id)) [
      | inl gone ↦ rw (hydrate, gone) (hydrate_lem D get_chunk ids hits good h)
      | inr (c, got) ↦
          rw (hydrate, got)
            (good hit.chunk_id c got inside, hydrate_lem D get_chunk ids hits good h)
    ]

-- With an index that keeps to its allowlist, a reranker that picks from its candidates and a source
-- whose chunks have the access data that it lists for them, every chunk that the vector path
-- returns is one that the session is not denied.
pub retrieve_for_session_lem :
    {Query : Type 0} (parts : Parts Query) (query : String) (s : Session)
    → IsBijection parts.id_map
    → IsFiltered parts.ann
    → Picks parts.rerank
    → IsConsistent parts
    → All
        (λ sc. is_deny (evaluate sc.chunk s).decision ≡ false)
        (retrieve_for_session parts query s)
unfolding retrieve_for_session search authorized_chunk_ids
retrieve_for_session_lem parts query s ok filtered picks consistent =
    elim (Bool-cases (is_empty ids)) [
      | inl empty ↦ rw empty tt
      | inr some_ids ↦ elim (Bool-cases (is_empty (allowed_numbers parts.id_map ids))) [
        | inl nothing ↦ rw (some_ids, nothing) (picks _ query [] parts.final_top_k tt)
        | inr something ↦
            rw (some_ids, something)
              (picks _ query _ parts.final_top_k
                (hydrated _ (resolve_lem parts.id_map ids _ ok (filtered _ _ _))))
      ]
    ]
  where
    ids : List String
    ids = in_process_ids s parts.all_chunk_security

    hydrated :
        (hits : List VectorHit)
        → All (λ (hit : VectorHit). contains hit.chunk_id ids ≡ true) hits
        → All (λ sc. is_deny (evaluate sc.chunk s).decision ≡ false) (hydrate parts.get_chunk hits)
    hydrated hits =
        hydrate_lem (λ c. is_deny (evaluate c s).decision ≡ false) parts.get_chunk ids hits
          (λ id c got inside.
            in_process_ids-admits s c id parts.all_chunk_security inside (consistent id c got))
