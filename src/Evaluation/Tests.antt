-- ===== src/Evaluation/Tests.antt =====
-- The gate over two forbidden documents.
use enterprise_rag_engine.Prelude.{
  ℕ, ◌*◌, ◌<◌, Bool, String, ◌≡◌, refl, true, [], ◌∷◌, ltb, contains, string_eq, keep, arith,
}
use enterprise_rag_engine.Evaluation.{Numbers, GateThresholds, governance_leak_rate, evaluate_gate}
use enterprise_rag_engine.Evaluation.ZeroTolerance.{evaluate_gate-passed}

abbrev below : ℕ × ℕ → ℕ × ℕ → Bool
below (a, b) (c, d) = ltb (a * d) (c * b)

-- Exact fractions
abbrev math : Numbers (ℕ × ℕ)
math = record { div = λ n d. (n, d); zero = (0, 1); one = (1, 1); lt = below; format = λ x. "0.00" }

abbrev thresholds : GateThresholds (ℕ × ℕ)
thresholds = record {
  min_context_recall = (4, 5);
  min_context_precision = (2, 5);
  max_leak_rate = (0, 1);
}

quotient-positive : (n d : ℕ) → 0 < n → 0 < d → below (0, 1) (n, d) ≡ true
quotient-positive n d h h' = ground (arith, h)

leak_found : governance_leak_rate math ("d1" ∷ []) ("d1" ∷ "d2" ∷ []) ≡ (1, 2)
unfolding governance_leak_rate keep contains
leak_found = refl

gate_passed :
    (evaluate_gate math
      (9, 10)
      (1, 2)
      (governance_leak_rate math ("d1" ∷ "d2" ∷ []) ("d1" ∷ []))
      thresholds).passed
    ≡ true
unfolding evaluate_gate governance_leak_rate keep contains
gate_passed = refl

evaluate_gate-passed_example :
    ((id : String) → contains id ("d1" ∷ []) ≡ true → contains id ("d1" ∷ "d2" ∷ []) ≡ true)
    × ((evaluate_gate math
          (9, 10)
          (1, 2)
          (governance_leak_rate math ("d1" ∷ "d2" ∷ []) ("d1" ∷ []))
          thresholds).messages
        ≡ "all gates passed" ∷ [])
evaluate_gate-passed_example =
    evaluate_gate-passed math quotient-positive (9, 10) (1, 2) ("d1" ∷ "d2" ∷ []) ("d1" ∷ [])
      thresholds refl gate_passed
