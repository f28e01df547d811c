-- ===== src/Selfrag/Loop/Conceals.antt =====
-- What the loop returns does not depend on withheld content.
use enterprise_rag_engine.Prelude.{
  ℕ, zero, suc, ◌+◌, String, ◌≡◌, refl, Option, none, some, List, map, arith, Option-cases, inl,
  inr,
}
use enterprise_rag_engine.Prelude.Fallible.{◌>>=◌}
use enterprise_rag_engine.Schemas.{Session, ScoredChunk}
use enterprise_rag_engine.Governance.Filter.{apply}
use enterprise_rag_engine.Governance.Filter.Conceals.{Secret, vary, apply-vary}
use enterprise_rag_engine.Selfrag.Loop.{
  Services, Best, LoopResult, LoopStep, RelevanceGrade, GroundednessGrade, Round, finished, again,
  empty_result, new_step, ground_round, relevance_round, round, rounds, run,
}

-- What the filter leaves of a retrieval that went through
abbrev pub filtered : Session → Option (List ScoredChunk) → Option (List ScoredChunk)
filtered s retrieved = retrieved >>= λ found. some (apply found s).0

-- The same services with another retriever
abbrev pub retrieving : (ℕ → String → Session → Option (List ScoredChunk)) → Services → Services
retrieving retrieve services = record services { retrieve = retrieve }

-- Another retriever that finds, for the session `s`, what the filter cannot tell from what the
-- retriever of the services finds.
module _ (services : Services) (retrieve : ℕ → String → Session → Option (List ScoredChunk))
    (s : Session)
    (same : (i : ℕ) (query : String)
      → filtered s (retrieve i query s) ≡ filtered s (services.retrieve i query s)) where
  ground_round-retrieving :
      (i : ℕ) (query : String) (chunks : List ScoredChunk) (answer : String) (step : LoopStep)
      (best : Best) (result : LoopResult) (grade : Option GroundednessGrade)
      → ground_round (retrieving retrieve services) i query chunks answer step best result grade
        ≡ ground_round services i query chunks answer step best result grade
  unfolding ground_round
  ground_round-retrieving i query chunks answer step best result none = refl
  ground_round-retrieving i query chunks answer step best result (some grade) = refl

  relevance_round-retrieving :
      (i : ℕ) (query : String) (chunks : List ScoredChunk) (step : LoopStep) (best : Best)
      (result : LoopResult) (grade : Option RelevanceGrade)
      → relevance_round (retrieving retrieve services) i query chunks step best result grade
        ≡ relevance_round services i query chunks step best result grade
  unfolding relevance_round
  relevance_round-retrieving i query chunks step best result none = refl
  relevance_round-retrieving i query chunks step best result (some grade) =
      elim (Option-cases (services.generate i query chunks)) [
        | inl raised ↦ rw raised
        | inr (answer, done) ↦ rw (
          done,
          ground_round-retrieving i query chunks answer _ best result
              (services.grade_groundedness i query answer chunks),
        )
      ]

  round-retrieving :
      (i : ℕ) (query : String) (best : Best) (result : LoopResult)
      → round (retrieving retrieve services) i query best result s
        ≡ round services i query best result s
  unfolding round
  round-retrieving i query best result =
      go (retrieve i query s) (services.retrieve i query s) refl refl (same i query)
    where
      go :
          (a b : Option (List ScoredChunk))
          → retrieve i query s ≡ a
          → services.retrieve i query s ≡ b
          → filtered s a ≡ filtered s b
          → round (retrieving retrieve services) i query best result s
            ≡ round services i query best result s
      go none none e e' h = rw (round, e, e') refl
      go none (some found) e e' h = cc h
      go (some found) none e e' h = cc h
      go (some found) (some found') e e' h =
          let left : (apply found s).0 ≡ (apply found' s).0 = ground (arith, h) in
          rw (round, e, e')
            (rw left (
              relevance_round-retrieving i query (apply found' s).0
                (new_step i query (apply found' s).0) best (record result { iterations = i })
                (services.grade_relevance i query (apply found' s).0)))

  rounds-retrieving :
      (left i : ℕ) (query : String) (best : Best) (result : LoopResult)
      → rounds (retrieving retrieve services) left i query best result s
        ≡ rounds services left i query best result s
  unfolding rounds
  rounds-retrieving zero i query best result = refl
  rounds-retrieving (suc left) i query best result =
      go (round services i query best result s) refl (λ q b r. rounds-retrieving left (i + 1) q b r)
    where
      go :
          (r : Option Round)
          → round services i query best result s ≡ r
          → ((q : String) (b : Best) (x : LoopResult)
              → rounds (retrieving retrieve services) left (i + 1) q b x s
                ≡ rounds services left (i + 1) q b x s)
          → rounds (retrieving retrieve services) (suc left) i query best result s
            ≡ rounds services (suc left) i query best result s
      go none e rest = rw (rounds, round-retrieving i query best result, e)
      go (some (finished r)) e rest = rw (rounds, round-retrieving i query best result, e)
      go (some (again q b x)) e rest =
          rw (rounds, round-retrieving i query best result, e) (rest q b x)

  -- The two runs are the same.
  pub run-retrieving :
      (max_iterations : ℕ) (query : String)
      → run (retrieving retrieve services) max_iterations query s
        ≡ run services max_iterations query s
  unfolding run
  run-retrieving max_iterations query = rounds-retrieving max_iterations 1 query none empty_result

pub filtered-vary :
    (s : Session) (f : ScoredChunk → Secret) (found : Option (List ScoredChunk))
    → filtered s (found >>= λ cs. some (map (vary s f) cs)) ≡ filtered s found
filtered-vary s f none = refl
filtered-vary s f (some cs) = rw (apply-vary cs s f) refl

-- The same services over a corpus whose withheld content is another one
abbrev pub varied : (ScoredChunk → Secret) → Services → Services
varied f services = record services {
  retrieve = λ i query s. services.retrieve i query s >>= λ found. some (map (vary s f) found);
}

module _ (services : Services) (f : ScoredChunk → Secret) where
  -- The outcome of the loop, its provenance included, is the same over a corpus in which the
  -- content of every chunk that the session may not see in full is another one.
  pub run-varied :
      (max_iterations : ℕ) (query : String) (s : Session)
      → run (varied f services) max_iterations query s ≡ run services max_iterations query s
  run-varied max_iterations query s =
      run-retrieving services _ s (λ i q. filtered-vary s f (services.retrieve i q s))
        max_iterations query
