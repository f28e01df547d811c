-- ===== src/Governance/Access/Monotone.antt =====
-- More clearance and more roles never reveal less, and the decision reads nothing of a session
-- but its clearance and the set of its roles.
use enterprise_rag_engine.Prelude.{
  ℕ, ◌≤◌, String, ◌≡◌, Bool, true, false, not, ◌&&◌, List, arith, contains, intersects,
  intersects_mono, string_eq, is_empty, is_nil,
}
use enterprise_rag_engine.Schemas.{EnrichedChunk, Session, Decision}
use enterprise_rag_engine.Governance.Access.{evaluate, partial_roles}
use enterprise_rag_engine.Governance.Access.Gates.{
  is_low, lacks_need, has_scope, lacks_role, pii_verdict, gates_verdict, verdict, decision-evaluate,
}

-- How much a decision shows: the order of `_REVEAL` in catalog/oracle.py.
unfoldable pub reveal : Decision → ℕ
reveal Decision.deny = 0
reveal Decision.partial = 1
reveal Decision.mask = 2
reveal Decision.allow = 3
reveal (Decision.other _) = 3

-- The second session has the clearance and the roles of the first, or more.
pub record AtLeast (s t : Session) : Type 0 where
  pub level : s.clearance_level ≤ t.clearance_level
  pub roles : (r : String) → contains r s.roles ≡ true → contains r t.roles ≡ true

intersects-AtLeast :
    (s t : Session) (ys : List String)
    → AtLeast s t
    → intersects s.roles ys ≡ true
    → intersects t.roles ys ≡ true
intersects-AtLeast s t ys h = intersects_mono s.roles t.roles ys h.roles

gates_verdict_mono :
    (low low' need need' scope scope' role role' : Bool)
    → (low' ≡ true → low ≡ true)
    → (need' ≡ true → need ≡ true)
    → (scope ≡ true → scope' ≡ true)
    → (role' ≡ true → role ≡ true)
    → (scope ≡ true → role' ≡ false)
    → reveal (gates_verdict low need scope role) ≤ reveal (gates_verdict low' need' scope' role')
unfolding reveal
gates_verdict_mono low low' need need' scope scope' role role' hl hn hs hr hx = ground arith

pii_verdict_mono : (m n : ℕ) → m ≤ n → reveal (pii_verdict m) ≤ reveal (pii_verdict n)
unfolding reveal
pii_verdict_mono m n h = ground arith

verdict_mono :
    (public unknown pii : Bool) (d d' e e' : Decision)
    → reveal d ≤ reveal d'
    → reveal e ≤ reveal e'
    → reveal (verdict public unknown pii d e) ≤ reveal (verdict public unknown pii d' e')
unfolding reveal
verdict_mono public unknown pii d d' e e' hd he = ground arith

-- A session with more clearance and more roles is never shown less of a chunk, unless the chunk
-- has no sensitivity class and names roles of partial access.
pub reveal-evaluate_mono :
    (c : EnrichedChunk) (s t : Session)
    → AtLeast s t
    → (is_nil c.security.sensitivity_class && not (is_empty (partial_roles c.metadata))) ≡ false
    → reveal (evaluate c s).decision ≤ reveal (evaluate c t).decision
reveal-evaluate_mono c s t h classed = simp decision-evaluate (
    verdict_mono _ _ _ _ _ _ _ (pii_verdict_mono _ _ h.level) (
      gates_verdict_mono (is_low c s) (is_low c t) (lacks_need c s) (lacks_need c t) (has_scope c s)
        (has_scope c t) (lacks_role c s) (lacks_role c t) (λ e. ground (arith, h.level))
        (λ e. ground (arith, intersects-AtLeast s t c.security.need_to_know_roles h))
        (λ e. ground (arith, intersects-AtLeast s t (partial_roles c.metadata) h))
        (λ e. ground (arith, intersects-AtLeast s t c.security.allowed_roles h))
        (λ e. ground arith)))
