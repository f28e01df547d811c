-- ===== src/Pipeline/Cases.antt =====
-- The three ways in which a query ends: it raises, it is answered from the candidates, or it is
-- served from the cache.
use mathlib.Core.Path.{subst}
use enterprise_rag_engine.Prelude.{
  String, ◌≡◌, refl, sym, arith, Option, none, some, List, [], ◌∷◌, ◌++◌, string_eq, contains,
  Option-cases, ◌⊎◌, inl, inr,
}
use enterprise_rag_engine.Prelude.DistinctKeys.{HasDistinctKeys}
use enterprise_rag_engine.Schemas.{ScoredChunk, Session, RagResponse}
use enterprise_rag_engine.Governance.Filter.{apply}
use enterprise_rag_engine.Cache.Semantic.{Cache, Entry, scope_of, serve}
use enterprise_rag_engine.Cache.Semantic.Hits.{Matches, get_lem}
use enterprise_rag_engine.Pipeline.{
  Parts, RagPipeline, Clock, govern_fn, audit_record, warm_response, cold_response, answer_of,
  remember, respond, cold, retrieve_for_session, look_up, query,
}

-- The keys of the cache are distinct, if there is one.
abbrev pub HasValidCache : {Num Vec : Type 0} → Option (Cache Num Vec) → Type 0
HasValidCache none = Unit
HasValidCache (some cache) = HasDistinctKeys cache.entries

module _ {Num Vec : Type 0} (parts : Parts Num Vec) (clock : Clock Num) where
  abbrev pub Outcome : Type 0
  Outcome = Option RagResponse × RagPipeline Num Vec

  -- The retriever or what makes the answer raised: there is no response, and the chunks, the index
  -- and the cache are as they were.
  abbrev pub IsRaised : RagPipeline Num Vec → Outcome → Type 0
  IsRaised st (response, st') =
      (response ≡ none)
      × (st'.chunks ≡ st.chunks)
      × (st'.indexed ≡ st.indexed)
      × (st'.cache ≡ st.cache)

  -- The response is made from what the filter leaves of the candidates, one record is added to the
  -- audit log, and the cache remembers the answer under the ids of the admitted chunks.
  abbrev pub IsCold : String → Session → RagPipeline Num Vec → Outcome → Type 0
  IsCold question s st outcome =
      (cs : List ScoredChunk) × (answer : String) × (retrieve_for_session parts st.indexed question
          s
        ≡ some cs)
      × (answer_of parts st.indexed question s (apply cs s).0 ≡ some answer)
      × (outcome ≡ (
        some (cold_response parts question cs (apply cs s).0 (apply cs s).1 answer),
        record st {
          audit = st.audit ++ audit_record s question (apply cs s).1 ∷ [];
          cache =
              remember parts clock question s (apply cs s).0
                (cold_response parts question cs (apply cs s).0 (apply cs s).1 answer) st.cache;
        },
      ))

  -- The govern function of the pipeline
  abbrev pub governs : RagPipeline Num Vec → List String → Session → Option (List String)
  governs st ids s = some (govern_fn st.chunks ids s)

  -- The response is that of an entry of the session's own scope which is similar enough and not
  -- expired; the ids that the pipeline governs now are the ids of the entry.
  abbrev pub IsWarm : String → Session → RagPipeline Num Vec → Outcome → Type 0
  IsWarm question s st outcome =
      (cache : Cache Num Vec) × (sim : Num) × (k : String) × (e : Entry Num Vec) × (st.cache
        ≡ some cache)
      × Matches parts.setup cache.entries (scope_of parts.setup s) clock.looked_up
          (parts.setup.embed question) sim k e
      × ((id : String) → contains id (govern_fn st.chunks e.chunk_ids s) ≡ contains id e.chunk_ids)
      × (outcome ≡ (
        some (
            warm_response parts question st.chunks (record {
              answer = e.answer;
              chunk_ids = govern_fn st.chunks e.chunk_ids s;
              similarity = sim;
              scope_fp = scope_of parts.setup s;
              n_withheld = e.n_withheld;
            })),
        record st {
          cache =
              some
                (serve parts.setup s (scope_of parts.setup s) sim k e
                  (govern_fn st.chunks e.chunk_ids s) cache).1;
        },
      ))

  respond_cases :
      (question : String) (s : Session) (st : RagPipeline Num Vec) (cs : List ScoredChunk)
      → retrieve_for_session parts st.indexed question s ≡ some cs
      → IsRaised st (respond parts clock question s st cs)
        ⊎ IsCold question s st (respond parts clock question s st cs)
  unfolding respond
  respond_cases question s st cs found =
      elim (Option-cases (answer_of parts st.indexed question s (apply cs s).0)) [
        | inl raised ↦ inl (rw (respond, raised) (refl, refl, refl, refl))
        | inr (answer, done) ↦ inr (cs, answer, found, done, rw (respond, done))
      ]

  cold_cases :
      (question : String) (s : Session) (st : RagPipeline Num Vec)
      → IsRaised st (cold parts clock question s st)
        ⊎ IsCold question s st (cold parts clock question s st)
  unfolding cold
  cold_cases question s st =
      elim (Option-cases (retrieve_for_session parts st.indexed question s)) [
        | inl raised ↦ inl (rw (cold, raised) (refl, refl, refl, refl))
        | inr (cs, found) ↦
            subst (λ o. IsRaised st o ⊎ IsCold question s st o) (sym (rw (cold, found)))
              (respond_cases question s st cs found)
      ]

  -- A query over a cache with distinct keys raises, is answered from the candidates, or is served
  -- from the cache.
  pub query_cases :
      (question : String) (s : Session) (st : RagPipeline Num Vec)
      → HasValidCache st.cache
      → IsRaised st (query parts clock question s st)
        ⊎ (IsCold question s st (query parts clock question s st)
            ⊎ IsWarm question s st (query parts clock question s st))
  unfolding query look_up serve
  query_cases question s st valid = go st.cache refl valid
    where
      Ends : Outcome → Type 0
      Ends o = IsRaised st o ⊎ (IsCold question s st o ⊎ IsWarm question s st o)

      from_cold :
          IsRaised st (cold parts clock question s st)
            ⊎ IsCold question s st (cold parts clock question s st)
          → Ends (cold parts clock question s st)
      from_cold (inl raised) = inl raised
      from_cold (inr done) = inr (inl done)

      go :
          (o : Option (Cache Num Vec))
          → st.cache ≡ o
          → HasValidCache o
          → Ends (look_up parts clock question s st o)
      go none e valid = from_cold (cold_cases question s st)
      go (some cache) e valid =
          elim (get_lem parts.setup (governs st) clock.looked_up question s cache valid) [
            | inl miss ↦
                rw (look_up, miss)
                  (subst (λ o. Ends (cold parts clock question s (record st { cache = o }))) e
                    (from_cold (cold_cases question s st)))
            | inr (sim, k, e', authorized, m, similar, done, same, served) ↦
                let governed : govern_fn st.chunks e'.chunk_ids s ≡ authorized =
                  ground (arith, done) in
                inr (
                  inr (
                    cache,
                    sim,
                    k,
                    e',
                    e,
                    m,
                    λ id. rw governed (same id),
                    rw (look_up, served) (rw governed refl),
                  ))
          ]
