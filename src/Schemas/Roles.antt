-- ===== src/Schemas/Roles.antt =====
-- The validators of roles and clearances in src/rag_engine/schemas.py.
use enterprise_rag_engine.Prelude.{
  ℕ, ◌≤◌, String, ◌≡◌, inl, inr, Bool, false, not, ◌&&◌, Option, none, some, List, [], ◌∷◌,
  string_eq, leb, if◌then◌else◌, contains, strip, upper, is_nil, has_control, map, arith,
  Bool-cases, beq_refl, ◌∙◌,
}
use enterprise_rag_engine.Schemas.Data.{SecurityContext, Session}

-- `SecurityContext._normalise_roles`: `seen` holds what `out` holds.
unfoldable pub normalise_from : List String → List String → List String
normalise_from seen [] = []
normalise_from seen (r ∷ rs) =
    let key = upper (strip r) in
    let fresh = not (is_nil key) && not (contains key seen) in
    let rest = normalise_from (if fresh then key ∷ seen else seen) rs in
    if fresh then key ∷ rest else rest

unfoldable pub normalise_roles : List String → List String
unfolding normalise_from
normalise_roles = normalise_from []

-- `SecurityContext(...)`: `none` is the ValidationError.
unfoldable pub security_context :
    List String → ℕ → String → String → List String → Option SecurityContext
security_context allowed level department cls ntk =
    if leb level 5
    then some (record {
      allowed_roles = normalise_roles allowed;
      clearance_level = level;
      owner_department = department;
      sensitivity_class = cls;
      need_to_know_roles = normalise_roles ntk;
    })
    else none

-- `Session._upper`: `none` is the ValueError on a control character.
unfoldable pub session_roles : List String → Option (List String)
session_roles [] = some []
session_roles (r ∷ rs) =
    let rest = session_roles rs in
    if is_nil (strip r)
    then rest
    else if has_control (strip r)
    then none
    else elim rest [ none ↦ none | some out ↦ some (upper (strip r) ∷ out) ]

-- `Session(...)`: `none` is the ValidationError.
unfoldable pub make_session : String → List String → ℕ → Option Session
make_session user roles level = elim (session_roles roles) [
  | none ↦ none
  | some out ↦
      if leb level 5
      then some (record { user_id = user; roles = out; clearance_level = level })
      else none
]

-- No element occurs twice.
abbrev pub IsDistinct : List String → Type 0
IsDistinct [] = Unit
IsDistinct (r ∷ rs) = (contains r rs ≡ false) × IsDistinct rs

-- A normalised list holds exactly the non-empty upper-cased roles that were not seen before.
pub contains-normalise_from :
    (k : String) (seen roles : List String)
    → contains k (normalise_from seen roles)
      ≡ (not (is_nil k) && not (contains k seen) && contains k (map (λ r. upper (strip r)) roles))
unfolding normalise_from contains
contains-normalise_from k seen [] = ground arith
contains-normalise_from k seen (r ∷ rs) = ground (
  arith,
  string_eq.beq_iff k (upper (strip r)),
  contains-normalise_from k seen rs,
  contains-normalise_from k (upper (strip r) ∷ seen) rs,
)

head_seen :
    (k : String) (seen : List String) (b : Bool)
    → (not (is_nil k) && not (contains k (k ∷ seen)) && b) ≡ false
unfolding contains
head_seen k seen b = ground (arith, beq_refl k)

normalise_from-IsDistinct : (seen roles : List String) → IsDistinct (normalise_from seen roles)
unfolding normalise_from
normalise_from-IsDistinct seen [] = tt
normalise_from-IsDistinct seen (r ∷ rs) =
    elim (Bool-cases (not (is_nil (upper (strip r))) && not (contains (upper (strip r)) seen))) [
      | inl fresh ↦ rw fresh (
        contains-normalise_from (upper (strip r)) (upper (strip r) ∷ seen) rs
            ∙ head_seen (upper (strip r)) seen _,
        normalise_from-IsDistinct (upper (strip r) ∷ seen) rs,
      )
      | inr old ↦ rw old (normalise_from-IsDistinct seen rs)
    ]

-- The roles of a SecurityContext are distinct and not empty, and hold exactly the given roles,
-- stripped and upper-cased.
pub normalise_roles_lem :
    (k : String) (roles : List String)
    → IsDistinct (normalise_roles roles)
      × (contains k (normalise_roles roles)
          ≡ (not (is_nil k) && contains k (map (λ r. upper (strip r)) roles)))
unfolding normalise_roles contains
normalise_roles_lem k roles =
    (normalise_from-IsDistinct [] roles, ground (arith, contains-normalise_from k [] roles))

-- A session is built exactly from a clearance of at most 5 and roles without control characters.
pub make_session-eq-some :
    (user : String) (roles : List String) (level : ℕ) (s : Session)
    → make_session user roles level ≡ some s
    → (s.clearance_level ≤ 5) × (session_roles roles ≡ some s.roles) × (s.clearance_level ≡ level)
unfolding make_session
make_session-eq-some user roles level s h = ground arith
