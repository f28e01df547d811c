-- ===== src/Trace/Build/Status.antt =====
-- The counts and the status of the governance stage.
use enterprise_rag_engine.Prelude.{
  ℕ, ◌+◌, String, ◌≡◌, refl, Bool, not, ◌||◌, List, [], ◌∷◌, arith, length, ltb, if◌then◌else◌,
  count_if, string_eq,
}
use enterprise_rag_engine.Schemas.{EnrichedChunk, ScoredChunk, Session, Citation}
use enterprise_rag_engine.Governance.Access.{evaluate}
use enterprise_rag_engine.Governance.Access.Gates.{decision-evaluate}
use enterprise_rag_engine.Governance.Filter.{apply, is_allow, is_deny}
use enterprise_rag_engine.Pipeline.Counts.{apply-counts}
use enterprise_rag_engine.Trace.Stages.{
  Formats, is_mask, is_partial, count_decisions, governance_stage,
}
use enterprise_rag_engine.Trace.Build.{trace_result}

abbrev one_if : Bool → ℕ
one_if b = if b then 1 else 0

-- Exactly one of the four tests holds of a decision that is made.
evaluate_one :
    (c : EnrichedChunk) (s : Session)
    → let d = (evaluate c s).decision in
      one_if (is_deny d) + (one_if (is_mask d) + one_if (is_partial d)) ≡ one_if (not (is_allow d))
unfolding is_allow is_deny is_mask is_partial
evaluate_one c s = rw (decision-evaluate c s) (ground arith)

apply_withheld :
    (cs : List ScoredChunk) (s : Session)
    → let trail = (apply cs s).1 in
      count_decisions is_deny trail
        + (count_decisions is_mask trail + count_decisions is_partial trail)
      ≡ count_decisions (λ d. not (is_allow d)) trail
unfolding apply count_if
apply_withheld [] s = refl
apply_withheld (c ∷ cs) s = omega (arith, evaluate_one c.chunk s, apply_withheld cs s)

abbrev pub status : Bool → String
status warns = if warns then "warn" else "ok"

warn_if_some :
    (a b c n : ℕ) → a + (b + c) ≡ n → status (ltb 0 a || (ltb 0 b || ltb 0 c)) ≡ status (ltb 0 n)
warn_if_some a b c n h = ground (arith, h)

-- Of the candidates that a trace reports, those that are not admitted are counted as denied, and
-- those that are withheld as denied, masked or partial; the governance stage warns if and only if
-- some are withheld.
pub governance_stage-trace_result :
    (formats : Formats) (ms : ℕ) (answer : String) (citations : List Citation)
    (cs : List ScoredChunk) (s : Session)
    → let trail = (apply cs s).1 in
      let result = trace_result answer citations cs (apply cs s).0 trail in
      (length cs ≡ result.admitted + count_decisions is_deny trail)
      × (result.n_withheld
          ≡ count_decisions is_deny trail
            + (count_decisions is_mask trail + count_decisions is_partial trail))
      × ((governance_stage formats ms cs trail (apply cs s).0).status
          ≡ status (ltb 0 result.n_withheld))
unfolding trace_result governance_stage
governance_stage-trace_result formats ms answer citations cs s =
    let withheld = apply_withheld cs s in
    let (sum, size) = apply-counts cs s in
    (sum, omega (arith, withheld), warn_if_some _ _ _ _ withheld)
