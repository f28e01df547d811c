-- ===== src/Evaluation/ZeroTolerance.antt =====
-- A gate that tolerates no leak lets no forbidden document through.
use enterprise_rag_engine.Prelude.{
  ℕ, ◌<◌, String, ◌≡◌, true, false, not, List, [], ◌∷◌, arith, string_eq, contains, keep, length,
  Bool-cases, inl, inr,
}
use enterprise_rag_engine.Evaluation.{Numbers, GateThresholds, governance_leak_rate, evaluate_gate}

-- A document that is forbidden and not blocked is counted.
leaked-counted :
    (id : String) (blocked forbidden : List String)
    → contains id forbidden ≡ true
    → contains id blocked ≡ false
    → 0 < length (keep (λ d. not (contains d blocked)) forbidden)
unfolding contains keep
leaked-counted id blocked [] h free = cc h
leaked-counted id blocked (d ∷ ds) h free =
    ground (arith, h, free, string_eq.beq_iff id d, leaked-counted id blocked ds)

listed-positive : (id : String) (xs : List String) → contains id xs ≡ true → 0 < length xs
unfolding contains
listed-positive id [] h = cc h
listed-positive id (x ∷ xs) h = omega arith

module _ {Num : Type 0} (math : Numbers Num) where
  leak_rate-positive :
      ((n d : ℕ) → 0 < n → 0 < d → math.lt math.zero (math.div n d) ≡ true)
      → (id : String) (blocked forbidden : List String) → contains id forbidden ≡ true
      → contains id blocked ≡ false
      → math.lt math.zero (governance_leak_rate math blocked forbidden) ≡ true
  unfolding governance_leak_rate contains
  leak_rate-positive positive id blocked [] h free = cc h
  leak_rate-positive positive id blocked (d ∷ ds) h free =
      positive _ _ (leaked-counted id blocked (d ∷ ds) h free) (listed-positive id (d ∷ ds) h)

  -- If the quotient of positive numbers is positive, a gate whose largest leak rate is zero passes
  -- only if every forbidden document is blocked, and then it has no message but that all gates
  -- passed.
  pub evaluate_gate-passed :
      ((n d : ℕ) → 0 < n → 0 < d → math.lt math.zero (math.div n d) ≡ true)
      → (recall precision : Num) (blocked forbidden : List String) (t : GateThresholds Num)
      → t.max_leak_rate ≡ math.zero
      → (evaluate_gate math recall precision (governance_leak_rate math blocked forbidden) t).passed
        ≡ true
      → ((id : String) → contains id forbidden ≡ true → contains id blocked ≡ true)
        × ((evaluate_gate math recall precision
              (governance_leak_rate math blocked forbidden)
              t).messages
            ≡ "all gates passed" ∷ [])
  unfolding evaluate_gate
  evaluate_gate-passed positive recall precision blocked forbidden t strict passed = (
    λ id h. elim (Bool-cases (contains id blocked)) [
      | inl known ↦ known
      | inr free ↦
          ground (arith, passed, strict, leak_rate-positive positive id blocked forbidden h free)
    ],
    ground (arith, passed),
  )
