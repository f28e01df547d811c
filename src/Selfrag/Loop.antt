-- ===== src/Selfrag/Loop.antt =====
-- src/rag_engine/selfrag/loop.py. The retriever, the generator, the grader and the reformulation
-- are parameters: calls that may raise, which see the number of the iteration they are made in, so
-- that they can answer differently each time. The span of a step goes to a tracer that cannot
-- change the outcome.
pub mod Outcome
pub mod Conceals
use enterprise_rag_engine.Prelude.{
  ℕ, zero, suc, ◌+◌, String, Bool, true, false, Option, none, some, List, [], ◌∷◌, ◌++◌,
  if◌then◌else◌, length,
}
use enterprise_rag_engine.Prelude.Fallible.{◌>>=◌}
use enterprise_rag_engine.Schemas.{Float, bits, Session, ScoredChunk}
use enterprise_rag_engine.Governance.Filter.{apply}

pub record RelevanceGrade : Type 0 where
  pub sufficient : Bool
  pub score : Float

pub record GroundednessGrade : Type 0 where
  pub grounded : Bool
  pub score : Float

pub data Action : Type 0 where
  unset reretrieve return grader_degraded : Action

pub record LoopStep : Type 0 where
  pub iteration : ℕ
  pub query : String
  pub n_retrieved : ℕ
  pub relevance_score : Float
  pub relevance_sufficient : Bool
  pub groundedness_score : Option Float
  pub grounded : Option Bool
  pub action : Action

pub data StopReason : Type 0 where
  unstopped stopped_grounded ungrounded insufficient_retrieval degraded : StopReason

pub record LoopResult : Type 0 where
  pub answer : String
  pub abstained : Bool
  pub iterations : ℕ
  pub stop_reason : StopReason
  pub chunks : List ScoredChunk
  pub steps : List LoopStep

-- What the loop calls; `none` is an exception.
pub record Services : Type 0 where
  pub retrieve : ℕ → String → Session → Option (List ScoredChunk)
  pub generate : ℕ → String → List ScoredChunk → Option String
  pub grade_relevance : ℕ → String → List ScoredChunk → Option RelevanceGrade
  pub grade_groundedness : ℕ → String → String → List ScoredChunk → Option GroundednessGrade
  pub reformulate : String → ℕ → String

-- `best`: the last ungrounded attempt
abbrev pub Best : Type 0
Best = Option (String × List ScoredChunk)

-- A round returns, or the loop goes on with a query, a best attempt and a result so far.
pub data Round : Type 0 where
  finished : LoopResult → Round
  again : String → Best → LoopResult → Round

unfoldable pub empty_result : LoopResult
empty_result = record {
  answer = "";
  abstained = false;
  iterations = 0;
  stop_reason = unstopped;
  chunks = [];
  steps = [];
}

unfoldable pub new_step : ℕ → String → List ScoredChunk → LoopStep
new_step i query chunks = record {
  iteration = i;
  query = query;
  n_retrieved = length chunks;
  relevance_score = bits 0;
  relevance_sufficient = false;
  groundedness_score = none;
  grounded = none;
  action = unset;
}

abbrev pub add_step : LoopStep → LoopResult → LoopResult
add_step step result = record result { steps = result.steps ++ step ∷ [] }

-- `_degrade`
unfoldable pub degrade : LoopResult → LoopResult
degrade result = record result { abstained = true; answer = ""; stop_reason = degraded }

-- After the loop: the last step says why it abstains.
unfoldable pub last_grounded : List LoopStep → Option Bool
last_grounded [] = none
last_grounded (s ∷ []) = s.grounded
last_grounded (s ∷ t ∷ ss) = last_grounded (t ∷ ss)

unfoldable pub exhausted : Best → LoopResult → LoopResult
unfolding last_grounded
exhausted best result = elim (last_grounded result.steps) [
  | some false ↦ record result {
    abstained = true;
    answer = "";
    stop_reason = ungrounded;
    chunks = elim best [ none ↦ [] | some (answer, chunks) ↦ chunks ];
  }
  | _ ↦ record result { abstained = true; answer = ""; stop_reason = insufficient_retrieval }
]

module _ (services : Services) where
  -- From the grade of the groundedness to the end of the round
  unfoldable pub ground_round :
      ℕ
      → String
      → List ScoredChunk
      → String
      → LoopStep
      → Best
      → LoopResult
      → Option GroundednessGrade
      → Round
  unfolding degrade
  ground_round i query chunks answer step best result none =
      finished (degrade (add_step (record step { action = grader_degraded }) result))
  ground_round i query chunks answer step best result (some grade) =
      let graded = record step {
        groundedness_score = some grade.score;
        grounded = some grade.grounded;
      } in
      if grade.grounded
      then finished (record result {
        steps = result.steps ++ record graded { action = return } ∷ [];
        answer = answer;
        chunks = chunks;
        stop_reason = stopped_grounded;
      })
      else again (services.reformulate query i) (some (answer, chunks))
          (add_step (record graded { action = reretrieve }) result)

  -- From the grade of the relevance on
  unfoldable pub relevance_round :
      ℕ
      → String
      → List ScoredChunk
      → LoopStep
      → Best
      → LoopResult
      → Option RelevanceGrade
      → Option Round
  unfolding ground_round
  relevance_round i query chunks step best result none =
      some (finished (degrade (add_step (record step { action = grader_degraded }) result)))
  relevance_round i query chunks step best result (some grade) =
      let graded = record step {
        relevance_score = grade.score;
        relevance_sufficient = grade.sufficient;
      } in
      let rest : Option Round = services.generate i query chunks >>= λ answer. some (
        ground_round i query chunks answer graded best result
          (services.grade_groundedness i query answer chunks)) in
      if grade.sufficient
      then rest
      else some (
          again (services.reformulate query i) best
            (add_step (record graded { action = reretrieve }) result))

  -- One iteration of `run`, over chunks that the security filter has redacted
  unfoldable pub round : ℕ → String → Best → LoopResult → Session → Option Round
  unfolding relevance_round new_step
  round i query best result session = services.retrieve i query session >>= λ found.
      let chunks = (apply found session).0 in
      relevance_round i query chunks (new_step i query chunks) best
        (record result { iterations = i }) (services.grade_relevance i query chunks)

  -- The iterations from number `i` on, of which `left` are left
  unfoldable pub rounds : ℕ → ℕ → String → Best → LoopResult → Session → Option LoopResult
  unfolding round exhausted
  rounds zero i query best result session = some (exhausted best result)
  rounds (suc left) i query best result session = elim (round i query best result session) [
    | none ↦ none
    | some (finished r) ↦ some r
    | some (again query' best' result') ↦ rounds left (i + 1) query' best' result' session
  ]

  -- `CorrectiveLoop.run`; the constructor refuses `max_iterations < 1`.
  unfoldable pub run : ℕ → String → Session → Option LoopResult
  unfolding rounds empty_result
  run max_iterations query session = rounds max_iterations 1 query none empty_result session
