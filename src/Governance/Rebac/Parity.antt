-- ===== src/Governance/Rebac/Parity.antt =====
-- The derived decision is the canonical one, on chunks with a recognised class whose facts are
-- those that the store holds.
use enterprise_rag_engine.Prelude.{
  ℕ, ◌≤◌, zero, suc, String, ◌≡◌, refl, ap, sym, ◌∙◌, Bool, true, false, not, ◌&&◌, some, List, [],
  ◌∷◌, ◌==◌, string_eq, if◌then◌else◌, arith, Option-cases, inl, inr, leb, is_nil, is_empty,
  contains, All, beq_refl,
}
use enterprise_rag_engine.Prelude.Decimal.{to_text, to_int}
use enterprise_rag_engine.Prelude.Dict.{lookup, lookup-insert}
use enterprise_rag_engine.Schemas.{EnrichedChunk, Session, Decision, is_public}
use enterprise_rag_engine.Governance.Access.{evaluate, pii_class, valid_classes}
use enterprise_rag_engine.Governance.Access.Gates.{
  decide, decision-evaluate, is_unknown, is_low, lacks_need, has_scope, lacks_role, verdict,
  pii_verdict, gates_verdict,
}
use enterprise_rag_engine.Governance.Filter.{is_deny}
use enterprise_rag_engine.Governance.Allowlist.{in_process_ids}
use enterprise_rag_engine.Governance.Rebac.{
  Facts, FactStore, facts_of, min_level_of, class_fact, is_public_fact, decision_is_retrievable,
  auto_sync, rebac_ids,
}
use enterprise_rag_engine.Governance.Rebac.Tuples.{facts_of_lem}

level_text : (n : ℕ) → n ≤ 5 → (is_nil (to_text n) ≡ false) × (to_int (to_text n) ≡ some n)
unfolding to_text to_int
level_text zero h = (refl, refl)
level_text (suc zero) h = (refl, refl)
level_text (suc (suc zero)) h = (refl, refl)
level_text (suc (suc (suc zero))) h = (refl, refl)
level_text (suc (suc (suc (suc zero)))) h = (refl, refl)
level_text (suc (suc (suc (suc (suc zero))))) h = (refl, refl)
level_text (suc (suc (suc (suc (suc (suc n)))))) h = absurd (omega arith)

min_level_of-facts_of :
    (c : EnrichedChunk)
    → c.security.clearance_level ≤ 5
    → min_level_of (facts_of c) ≡ some c.security.clearance_level
unfolding min_level_of lookup
min_level_of-facts_of c h =
    let (nonempty, parsed) = level_text c.security.clearance_level h in
    rw ((facts_of_lem c).0, nonempty) parsed

class_fact-facts_of : (c : EnrichedChunk) → class_fact (facts_of c) ≡ c.security.sensitivity_class
unfolding class_fact lookup
class_fact-facts_of c = rw (facts_of_lem c).0

flag_text : (b : Bool) → ◌==◌ {A = String} (if b then "true" else "false") "true" ≡ b
flag_text true = refl
flag_text false = refl

is_public_fact-facts_of : (c : EnrichedChunk) → is_public_fact (facts_of c) ≡ is_public c.security
unfolding is_public_fact lookup
is_public_fact-facts_of c = rw (facts_of_lem c).0 (flag_text (is_public c.security))

-- What the tuples decide, as a table over the tests of `evaluate`.
abbrev derived : EnrichedChunk → Session → Bool
derived c s =
    if is_public c.security
    then true
    else if c.security.sensitivity_class == pii_class
    then leb 2 s.clearance_level
    else if is_low c s
    then false
    else if lacks_need c s
    then has_scope c s
    else not (lacks_role c s)

retrievable_lem :
    (c : EnrichedChunk) (s : Session)
    → c.security.clearance_level ≤ 5
    → decision_is_retrievable (facts_of c) s ≡ some (derived c s)
unfolding decision_is_retrievable
retrievable_lem c s h =
    let (values, ntk, scope, allowed) = facts_of_lem c in
    simp
      (
        is_public_fact-facts_of c,
        class_fact-facts_of c,
        min_level_of-facts_of c h,
        ntk,
        scope,
        allowed,
      )
      (ground arith)

-- A class that `evaluate` recognises, or none, and a clearance that a SecurityContext can have.
pub record IsGoverned (c : EnrichedChunk) (s : Session) : Type 0 where
  pub level : c.security.clearance_level ≤ 5
  pub recognised : is_unknown c s ≡ false

derived-decide :
    (c : EnrichedChunk) (s : Session)
    → is_unknown c s ≡ false
    → derived c s ≡ not (is_deny (decide c s))
unfolding is_deny
derived-decide c s h =
    table (is_public c.security) (is_unknown c s) (c.security.sensitivity_class == pii_class)
      s.clearance_level (is_low c s) (lacks_need c s) (has_scope c s) (lacks_role c s) h
  where
    table :
        (public unknown pii : Bool) (level : ℕ) (low need scope role : Bool)
        → unknown ≡ false
        → (if public
            then true
            else if pii
            then leb 2 level
            else if low
            then false
            else if need
            then scope
            else not role)
          ≡ not (
              is_deny (
                verdict public unknown pii (pii_verdict level) (gates_verdict low need scope role)))
    table public unknown pii level low need scope role e = ground arith

-- On a recognised class the tuples decide what `evaluate` decides.
pub retrievable-evaluate :
    (c : EnrichedChunk) (s : Session)
    → IsGoverned c s
    → decision_is_retrievable (facts_of c) s ≡ some (not (is_deny (evaluate c s).decision))
retrievable-evaluate c s g =
    retrievable_lem c s g.level
    ∙ ap some
        (derived-decide c s g.recognised ∙ ap (λ d. not (is_deny d)) (sym (decision-evaluate c s)))

unknown-other :
    (cls : String)
    → (not (is_nil cls) && not (contains cls valid_classes)) ≡ true
    → (cls == pii_class) ≡ false
unfolding contains
unknown-other cls h = ground (arith, h)

-- On a class that is not recognised, the tuples admit a chunk that `evaluate` denies: every chunk
-- that is not public, needs no more clearance than the session has and names no need-to-know role.
pub retrievable_unrecognised :
    (c : EnrichedChunk) (s : Session)
    → is_unknown c s ≡ true
    → is_public c.security ≡ false
    → c.security.clearance_level ≤ 5
    → c.security.clearance_level ≤ s.clearance_level
    → c.security.need_to_know_roles ≡ []
    → (decision_is_retrievable (facts_of c) s ≡ some true)
      × ((evaluate c s).decision ≡ Decision.deny)
retrievable_unrecognised c s unknown closed low clear none_needed =
    let other = unknown-other c.security.sensitivity_class unknown in
    let empty = ap is_empty none_needed in
    (
      retrievable_lem c s low ∙ ap some (ground (arith, other, empty)),
      decision-evaluate c s ∙ ground (arith, other),
    )

-- The store holds nothing but the facts that `view` gives for an id.
abbrev pub Holds : (String → Facts) → FactStore → Type 0
Holds view store = (k : String) (f : Facts) → lookup k store ≡ some f → f ≡ view k

lookup-auto_sync :
    (view : String → Facts) (store : FactStore) (c : EnrichedChunk)
    → facts_of c ≡ view c.chunk_id
    → Holds view store
    → lookup c.chunk_id (auto_sync store c) ≡ some (facts_of c)
unfolding auto_sync
lookup-auto_sync view store c e h = elim (Option-cases (lookup c.chunk_id store)) [
  | inl new ↦
      rw (new, auto_sync)
        (lookup-insert c.chunk_id c.chunk_id (facts_of c) store ∙ rw (beq_refl c.chunk_id))
  | inr (f, old) ↦ rw (old, auto_sync) (rw old (ap some (h c.chunk_id f old ∙ sym e)))
]

auto_sync-Holds :
    (view : String → Facts) (store : FactStore) (c : EnrichedChunk)
    → facts_of c ≡ view c.chunk_id
    → Holds view store
    → Holds view (auto_sync store c)
unfolding auto_sync
auto_sync-Holds view store c e h k f found = elim (Option-cases (lookup c.chunk_id store)) [
  | inl new ↦ ground (
    arith,
    new,
    lookup-insert c.chunk_id k (facts_of c) store,
    string_eq.beq_iff c.chunk_id k,
    h k f,
    e,
    ap view,
  )
  | inr (g, old) ↦ ground (arith, old, h k f)
]

-- The local engine returns the ids of the in-process engine, in order and without raising, if the
-- candidates have recognised classes and each id has one set of facts, which the store holds or
-- does not have yet.
pub rebac_ids-parity :
    (view : String → Facts) (s : Session) (cs : List EnrichedChunk) (store : FactStore)
    → All (λ c. IsGoverned c s × (facts_of c ≡ view c.chunk_id)) cs
    → Holds view store
    → (rebac_ids store s cs).1 ≡ some (in_process_ids s cs)
unfolding rebac_ids in_process_ids
rebac_ids-parity view s [] store good holds = refl
rebac_ids-parity view s (c ∷ cs) store good holds =
    let (governed, same) = good.0 in
    let rest =
      rebac_ids-parity view s cs (auto_sync store c) good.1
        (auto_sync-Holds view store c same holds) in
    ground
      (arith, lookup-auto_sync view store c same holds, retrievable-evaluate c s governed, rest)
