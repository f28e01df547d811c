-- ===== src/Selfrag/Loop/Outcome.antt =====
-- What the loop can return.
use mathlib.Core.Path.{subst}
use enterprise_rag_engine.Prelude.{
  ℕ, zero, suc, ◌+◌, ◌≤◌, String, ◌≡◌, refl, sym, ap, ◌∙◌, Bool, true, false, Option, none, some,
  List, [], ◌∷◌, ◌++◌, arith, length, length-append, Bool-cases, Option-cases, inl, inr, ◌⊎◌,
}
use enterprise_rag_engine.Schemas.{Session, ScoredChunk}
use enterprise_rag_engine.Governance.Filter.{apply}
use enterprise_rag_engine.Selfrag.Loop.{
  Services, Best, LoopResult, LoopStep, stopped_grounded, ungrounded, insufficient_retrieval,
  degraded, RelevanceGrade, GroundednessGrade, Round, finished, again, empty_result, new_step,
  ground_round, relevance_round, round, rounds, run, exhausted, last_grounded, degrade, add_step,
}

module _ (services : Services) (session : Session) where
  -- The chunks that the filter leaves of what some call of the retriever returned
  abbrev pub IsGoverned : List ScoredChunk → Type 0
  IsGoverned chunks =
      (i : ℕ) × (query : String) × (found : List ScoredChunk) × (services.retrieve i query session
        ≡ some found)
      × (chunks ≡ (apply found session).0)

  -- An answer that its grader found grounded in the governed chunks it was generated from
  abbrev pub IsAnswer : LoopResult → Type 0
  IsAnswer r =
      (r.abstained ≡ false)
      × (r.stop_reason ≡ stopped_grounded)
      × IsGoverned r.chunks
      × ((i : ℕ) × (query : String) × (grade : GroundednessGrade) × (services.generate i query
              r.chunks
            ≡ some r.answer)
          × (services.grade_groundedness i query r.answer r.chunks ≡ some grade)
          × (grade.grounded ≡ true))

  abbrev pub IsAbstention : LoopResult → Type 0
  IsAbstention r =
      (r.abstained ≡ true)
      × (r.answer ≡ "")
      × ((r.chunks ≡ []) ⊎ IsGoverned r.chunks)
      × ((r.stop_reason ≡ ungrounded)
          ⊎ ((r.stop_reason ≡ insufficient_retrieval) ⊎ (r.stop_reason ≡ degraded)))

  -- One step for each iteration, and at most `bound` of them
  abbrev pub IsSound : ℕ → LoopResult → Type 0
  IsSound bound r =
      (r.iterations ≤ bound) × (length r.steps ≡ r.iterations) × (IsAnswer r ⊎ IsAbstention r)

  abbrev BestGoverned : Best → Type 0
  BestGoverned none = Unit
  BestGoverned (some (answer, chunks)) = IsGoverned chunks

  -- The state before the iteration of a number
  record IsGoing (i : ℕ) (best : Best) (r : LoopResult) : Type 0 where
    number : r.iterations + 1 ≡ i
    counted : length r.steps ≡ r.iterations
    nothing : r.chunks ≡ []
    going : r.abstained ≡ false
    governed : BestGoverned best

  abbrev RoundSound : ℕ → Round → Type 0
  RoundSound i (finished r) = IsSound i r
  RoundSound i (again query best r) = IsGoing (i + 1) best r

  -- Some call of the retriever raised, or some call of the generator over chunks that the filter left
  abbrev pub HasRaised : Type 0
  HasRaised =
      (i : ℕ) × (query : String) × ((services.retrieve i query session ≡ none)
        ⊎ ((chunks : List ScoredChunk) × IsGoverned chunks
            × (services.generate i query chunks ≡ none)))

  abbrev SomeSound : ℕ → Option Round → Type 0
  SomeSound i none = HasRaised
  SomeSound i (some r) = RoundSound i r

  one_more :
      (r : LoopResult) (step : LoopStep) (i : ℕ)
      → length r.steps + 1 ≡ i
      → length (r.steps ++ step ∷ []) ≡ i
  one_more r step i h = length-append r.steps (step ∷ []) ∙ h

  -- The result within the iteration of a number, before its step is added
  record IsWithin (i : ℕ) (r : LoopResult) : Type 0 where
    number : r.iterations ≡ i
    counted : length r.steps + 1 ≡ i
    nothing : r.chunks ≡ []
    going : r.abstained ≡ false

  abandoned :
      (i : ℕ) (r : LoopResult) (step : LoopStep)
      → IsWithin i r
      → IsSound i (degrade (add_step step r))
  unfolding degrade
  abandoned i r step w =
      let n = w.number in
      (
        omega arith,
        one_more r step i w.counted ∙ sym w.number,
        inr (refl, refl, inl w.nothing, inr (inr refl)),
      )

  go_on :
      (i : ℕ) (best : Best) (r : LoopResult) (step : LoopStep)
      → IsWithin i r
      → BestGoverned best
      → IsGoing (i + 1) best (add_step step r)
  go_on i best r step w gov = record {
    number = ap (λ n. n + 1) w.number;
    counted = one_more r step i w.counted ∙ sym w.number;
    nothing = w.nothing;
    going = w.going;
    governed = gov;
  }

  ground_round_lem :
      (i : ℕ) (query : String) (chunks : List ScoredChunk) (answer : String) (step : LoopStep)
      (best : Best) (r : LoopResult) (grade : Option GroundednessGrade)
      → IsWithin i r
      → IsGoverned chunks
      → services.generate i query chunks ≡ some answer
      → services.grade_groundedness i query answer chunks ≡ grade
      → RoundSound i (ground_round services i query chunks answer step best r grade)
  unfolding ground_round
  ground_round_lem i query chunks answer step best r none w gov made graded = abandoned i r _ w
  ground_round_lem i query chunks answer step best r (some grade) w gov made graded =
      elim (Bool-cases grade.grounded) [
        | inl well ↦
            let n = w.number in
            rw well (
              omega arith,
              one_more r _ i w.counted ∙ sym w.number,
              inl (w.going, refl, gov, (i, query, grade, made, graded, well)),
            )
        | inr ill ↦ rw ill (go_on i (some (answer, chunks)) r _ w gov)
      ]

  relevance_round_lem :
      (i : ℕ) (query : String) (chunks : List ScoredChunk) (step : LoopStep) (best : Best)
      (r : LoopResult) (grade : Option RelevanceGrade)
      → IsWithin i r
      → IsGoverned chunks
      → BestGoverned best
      → SomeSound i (relevance_round services i query chunks step best r grade)
  unfolding relevance_round
  relevance_round_lem i query chunks step best r none w gov bgov = abandoned i r _ w
  relevance_round_lem i query chunks step best r (some grade) w gov bgov =
      elim (Bool-cases grade.sufficient) [
        | inr poor ↦ rw poor (go_on i best r _ w bgov)
        | inl enough ↦ elim (Option-cases (services.generate i query chunks)) [
          | inl raised ↦ rw (enough, raised) (i, query, inr (chunks, gov, raised))
          | inr (answer, made) ↦
              rw (enough, made)
                (ground_round_lem i query chunks answer
                  (record step { relevance_score = grade.score; relevance_sufficient = true }) best
                  r (services.grade_groundedness i query answer chunks) w gov made refl)
        ]
      ]

  round_lem :
      (i : ℕ) (query : String) (best : Best) (r : LoopResult)
      → IsGoing i best r
      → SomeSound i (round services i query best r session)
  unfolding round
  round_lem i query best r g = elim (Option-cases (services.retrieve i query session)) [
    | inl raised ↦ rw (round, raised) (i, query, inl raised)
    | inr (found, done) ↦
        rw (round, done)
          (relevance_round_lem i query (apply found session).0
            (new_step i query (apply found session).0) best (record r { iterations = i }) _
            (record {
              number = refl;
              counted = ap (λ n. n + 1) g.counted ∙ g.number;
              nothing = g.nothing;
              going = g.going;
            })
            (i, query, found, done, refl) g.governed)
  ]

  exhausted_lem :
      (i : ℕ) (best : Best) (r : LoopResult) → IsGoing (i + 1) best r → IsSound i (exhausted best r)
  unfolding exhausted
  exhausted_lem i best r g = go (last_grounded r.steps) refl best g.governed
    where
      le : r.iterations ≤ i
      le = let n = g.number in omega arith

      go :
          (o : Option Bool)
          → last_grounded r.steps ≡ o
          → (best : Best) → BestGoverned best
          → IsSound i (exhausted best r)
      go none e best gov =
          rw (exhausted, e) (le, g.counted, inr (refl, refl, inl g.nothing, inr (inl refl)))
      go (some true) e best gov =
          rw (exhausted, e) (le, g.counted, inr (refl, refl, inl g.nothing, inr (inl refl)))
      go (some false) e none gov =
          rw (exhausted, e) (le, g.counted, inr (refl, refl, inl refl, inl refl))
      go (some false) e (some (answer, chunks)) gov =
          rw (exhausted, e) (le, g.counted, inr (refl, refl, inr gov, inl refl))

  -- An exception is one of the retriever or of the generator; a result is sound.
  abbrev pub RaisesOrIsSound : ℕ → Option LoopResult → Type 0
  RaisesOrIsSound bound none = HasRaised
  RaisesOrIsSound bound (some r) = IsSound bound r

  rounds_lem :
      (left i bound : ℕ) (query : String) (best : Best) (r : LoopResult)
      → i + left ≡ bound + 1
      → IsGoing i best r
      → RaisesOrIsSound bound (rounds services left i query best r session)
  unfolding rounds
  rounds_lem zero i bound query best r h g =
      let (le, counted, kind) =
        exhausted_lem bound best r (subst (λ n. IsGoing n best r) (omega arith) g) in
      (le, counted, kind)
  rounds_lem (suc left) i bound query best r h g =
      go (round services i query best r session) refl (round_lem i query best r g)
        (λ q b x. rounds_lem left (i + 1) bound q b x (omega arith))
    where
      go :
          (o : Option Round)
          → round services i query best r session ≡ o
          → SomeSound i o
          → ((q : String) (b : Best) (x : LoopResult)
              → IsGoing (i + 1) b x
              → RaisesOrIsSound bound (rounds services left (i + 1) q b x session))
          → RaisesOrIsSound bound (rounds services (suc left) i query best r session)
      go none e raised rest = rw (rounds, e) raised
      go (some (finished x)) e (le, counted, kind) rest =
          rw (rounds, e) (omega arith, counted, kind)
      go (some (again q b x)) e going rest = rw (rounds, e) (rest q b x going)

  -- The loop raises only if some call of the retriever raises, or some call of the generator over
  -- chunks that the security filter left of what the retriever found; a grader that raises does not
  -- make it raise. Otherwise it returns after at most `max_iterations` iterations with one step for
  -- each: either an answer that its grader found grounded, generated
  -- from the chunks it carries, which the security filter left of what the retriever found; or an
  -- abstention with an empty answer, with no chunks or with such chunks, that says why.
  pub run_sound :
      (max_iterations : ℕ) (query : String)
      → RaisesOrIsSound max_iterations (run services max_iterations query session)
  unfolding run empty_result
  run_sound max_iterations query =
      rounds_lem max_iterations 1 max_iterations query none empty_result (omega arith) (record {
        number = omega arith;
        counted = refl;
        nothing = refl;
        going = refl;
        governed = tt;
      })
