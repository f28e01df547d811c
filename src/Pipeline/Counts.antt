-- ===== src/Pipeline/Counts.antt =====
-- The counts of a response, on a miss and on a hit of the cache.
use enterprise_rag_engine.Prelude.{
  ◌+◌, ◌≤◌, ◌<◌, String, ◌≡◌, refl, sym, ap, ◌∙◌, Bool, true, false, not, some, List, [], ◌∷◌,
  arith, is_empty, length, length-map, count_if, Bool-cases, some_inj, ◌⊎◌, inl, inr,
}
use enterprise_rag_engine.Schemas.{ScoredChunk, Session, GovernanceDecision, RagResponse}
use enterprise_rag_engine.Governance.Access.{evaluate}
use enterprise_rag_engine.Governance.Filter.{apply, is_allow, is_deny}
use enterprise_rag_engine.Governance.Citations.{build_citations}
use enterprise_rag_engine.Pipeline.Cases.{HasValidCache, query_cases}
use enterprise_rag_engine.Pipeline.{Parts, RagPipeline, Clock, warm_response, cold_response, query}

-- Every candidate is admitted or denied, and has one decision.
pub apply-counts :
    (cs : List ScoredChunk) (s : Session)
    → (length cs
        ≡ length (apply cs s).0
          + count_if (λ (d : GovernanceDecision). is_deny d.decision) (apply cs s).1)
      × (length (apply cs s).1 ≡ length cs)
unfolding apply count_if
apply-counts [] s = (refl, refl)
apply-counts (sc ∷ rest) s =
    let (sum, size) = apply-counts rest s in
    elim (Bool-cases (is_deny (evaluate sc.chunk s).decision)) [
      | inl denied ↦ rw denied (omega (arith, sum), omega (arith, size))
      | inr kept ↦ rw kept (omega (arith, sum), omega (arith, size))
    ]

-- What is denied is not allowed.
pub denied-le-withheld :
    (trail : List GovernanceDecision)
    → count_if (λ (d : GovernanceDecision). is_deny d.decision) trail
      ≤ count_if (λ (d : GovernanceDecision). not (is_allow d.decision)) trail
unfolding count_if is_deny is_allow
denied-le-withheld [] = omega arith
denied-le-withheld (d ∷ trail) = ground (arith, denied-le-withheld trail)

-- The counts of a response that was not served from the cache: every candidate is admitted or
-- blocked, has one decision, and every admitted chunk one citation; access is reported as denied if
-- and only if there are candidates and all of them are blocked.
pub record HasColdCounts (r : RagResponse) : Type 0 where
  pub candidates : r.retrieved ≡ r.admitted + r.blocked
  pub decisions : length r.governance_trail ≡ r.retrieved
  pub withheld : r.blocked ≤ r.n_withheld
  pub bounded : r.n_withheld ≤ r.retrieved
  pub cited : length r.citations ≡ r.admitted
  pub denied : r.access_denied ≡ true → (r.admitted ≡ 0) × (0 < r.blocked)
  pub not_denied : r.access_denied ≡ false → (0 < r.admitted) ⊎ (r.retrieved ≡ 0)

-- The counts of a response from the cache: no chunk is blocked, and no decision is reported.
abbrev pub HasWarmCounts : RagResponse → Type 0
HasWarmCounts r =
    (r.retrieved ≡ r.admitted)
    × (r.blocked ≡ 0)
    × (r.access_denied ≡ false)
    × (r.governance_trail ≡ [])

count_if-le {ℓ} : {A : Type ℓ} (p : A → Bool) (xs : List A) → count_if p xs ≤ length xs
unfolding count_if
count_if-le p [] = omega arith
count_if-le p (x ∷ xs) = ground (arith, count_if-le p xs)

nobody {ℓ} :
    {A : Type ℓ} (xs : List A)
    → (is_empty xs ≡ true → length xs ≡ 0) × (is_empty xs ≡ false → 0 < length xs)
nobody [] = (λ h. refl, λ h. cc)
nobody (x ∷ xs) = (λ h. cc, λ h. omega arith)

module _ {Num Vec : Type 0} (parts : Parts Num Vec) where
  cold_response-HasColdCounts :
      (question : String) (cs : List ScoredChunk) (s : Session) (answer : String)
      → HasColdCounts (cold_response parts question cs (apply cs s).0 (apply cs s).1 answer)
  unfolding cold_response build_citations
  cold_response-HasColdCounts question cs s answer =
      let (sum, size) = apply-counts cs s in
      let (empty, full) = nobody (apply cs s).0 in
      let (no_candidates, candidates) = nobody cs in
      record {
        candidates = sum;
        decisions = size;
        withheld = denied-le-withheld (apply cs s).1;
        bounded = omega (
          arith,
          size,
          count_if-le (λ (d : GovernanceDecision). not (is_allow d.decision)) (apply cs s).1,
        );
        cited = length-map (apply cs s).0 _;
        denied = λ h. ground (arith, h, empty, candidates, sum);
        not_denied = λ h. ground (arith, h, full, no_candidates);
      }

  -- Every response of a pipeline whose cache has distinct keys has consistent counts: those of a
  -- response from the candidates, or those of a response from the cache. In both cases what was
  -- retrieved is what was admitted or blocked.
  pub query-counts :
      (clock : Clock Num) (question : String) (s : Session) (st : RagPipeline Num Vec)
      (r : RagResponse)
      → HasValidCache st.cache
      → (query parts clock question s st).0 ≡ some r
      → (r.retrieved ≡ r.admitted + r.blocked) × (HasColdCounts r ⊎ HasWarmCounts r)
  unfolding warm_response
  query-counts clock question s st r valid h = elim (query_cases parts clock question s st valid) [
    | inl (raised, _, _, _) ↦ cc (h, raised)
    | inr (inl (cs, answer, found, done, e)) ↦
        let same : cold_response parts question cs (apply cs s).0 (apply cs s).1 answer ≡ r =
          some_inj (sym (ap (λ o. o.0) e) ∙ h) in
        let counts : HasColdCounts r =
          rw (← same) (cold_response-HasColdCounts question cs s answer) in
        (counts.candidates, inl counts)
    | inr (inr (cache, sim, k, entry, has, m, governed, e)) ↦
        let same = some_inj (sym (ap (λ o. o.0) e) ∙ h) in
        rw (← same) (omega arith, inr (refl, refl, refl, refl))
  ]
