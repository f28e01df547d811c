-- ===== src/Evaluation.antt =====
-- src/rag_engine/evaluation: the metrics and the quality gate. Division, the order and the format of
-- floating-point numbers are parameters; a set is a list without repetition.
pub mod ZeroTolerance
mod Tests
use Prim.Native.String.{◌++◌ as concat}
use enterprise_rag_engine.Prelude.{
  ℕ, String, Bool, not, ◌&&◌, List, [], ◌∷◌, ◌++◌, string_eq, if◌then◌else◌, is_empty, contains,
  keep, length,
}
use enterprise_rag_engine.Schemas.{ScoredChunk}

-- `hit / total`, `0.0`, `1.0`, `<`, and `f"{x:.2f}"`
pub record Numbers (Num : Type 0) : Type 0 where
  pub div : ℕ → ℕ → Num
  pub zero : Num
  pub one : Num
  pub lt : Num → Num → Bool
  pub format : Num → String

pub record GateThresholds (Num : Type 0) : Type 0 where
  pub min_context_recall : Num
  pub min_context_precision : Num
  pub max_leak_rate : Num

pub record GateResult (Num : Type 0) : Type 0 where
  pub passed : Bool
  pub context_recall : Num
  pub context_precision : Num
  pub leak_rate : Num
  pub messages : List String

-- The loop of `dict.fromkeys`, from the ids that it has seen
unfoldable pub distinct_ids : List String → List ScoredChunk → List String
distinct_ids seen [] = seen
distinct_ids seen (sc ∷ rest) =
    distinct_ids
      (if contains sc.chunk.parent_doc_id seen then seen else seen ++ sc.chunk.parent_doc_id ∷ [])
      rest

unfoldable pub admitted_doc_ids : List ScoredChunk → List String
unfolding distinct_ids
admitted_doc_ids admitted = distinct_ids [] admitted

module _ {Num : Type 0} (math : Numbers Num) where
  unfoldable pub context_recall : List String → List String → Num
  context_recall retrieved relevant =
      if is_empty relevant
      then math.one
      else math.div (length (keep (λ d. contains d retrieved) relevant)) (length relevant)

  unfoldable pub context_precision : List String → List String → Num
  context_precision retrieved relevant =
      if is_empty retrieved
      then math.zero
      else math.div (length (keep (λ d. contains d relevant) retrieved)) (length retrieved)

  unfoldable pub governance_leak_rate : List String → List String → Num
  governance_leak_rate blocked forbidden =
      if is_empty forbidden
      then math.zero
      else math.div (length (keep (λ d. not (contains d blocked)) forbidden)) (length forbidden)

  -- The message of a breach, if there is one
  abbrev pub breach : Bool → String → Num → String → Num → List String
  breach breached name value sign limit =
      if breached
      then concat name (concat (math.format value) (concat sign (math.format limit))) ∷ []
      else []

  unfoldable pub evaluate_gate : Num → Num → Num → GateThresholds Num → GateResult Num
  evaluate_gate recall precision leak_rate t =
      let low_recall = math.lt recall t.min_context_recall in
      let low_precision = math.lt precision t.min_context_precision in
      let leaks = math.lt t.max_leak_rate leak_rate in
      let ok = not low_recall && (not low_precision && not leaks) in
      record {
        passed = ok;
        context_recall = recall;
        context_precision = precision;
        leak_rate = leak_rate;
        messages =
            breach low_recall "context_recall " recall " < " t.min_context_recall
            ++ (breach low_precision "context_precision " precision " < " t.min_context_precision
                ++ (breach leaks "GOVERNANCE LEAK: leak_rate " leak_rate " > " t.max_leak_rate
                    ++ (if ok then "all gates passed" ∷ [] else [])));
      }
