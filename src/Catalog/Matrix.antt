-- ===== src/Catalog/Matrix.antt =====
-- seeds/access_matrix.py and seeds/personas.py: the sensitivity classes, the reference decision
-- for a class, and the fifteen personas.
use enterprise_rag_engine.Prelude.{
  ℕ, String, not, ◌&&◌, Option, some, List, [], ◌∷◌, map, ◌==◌, string_eq, leb, ltb, if◌then◌else◌,
  is_empty, intersects, upper,
}
use enterprise_rag_engine.Prelude.Dict.{Dict, lookup}
use enterprise_rag_engine.Prelude.Fallible.{◌>>=◌}
use enterprise_rag_engine.Schemas.{Decision}

pub record SensitivityClass : Type 0 where
  pub code : String
  pub min_level : ℕ
  pub need_to_know_roles : List String

abbrev class_of : String → ℕ → List String → String × SensitivityClass
class_of code level roles =
    (code, record { code = code; min_level = level; need_to_know_roles = roles })

abbrev pub classes : Dict String SensitivityClass
classes =
    class_of "A" 0 []
    ∷ class_of "B" 1 []
    ∷ class_of "C" 2 []
    ∷ class_of "D" 3 []
    ∷ class_of "E" 4 ("FINANCE" ∷ "C_SUITE" ∷ [])
    ∷ class_of "F" 5 ("C_SUITE" ∷ [])
    ∷ class_of "G" 4 ("LEGAL" ∷ "C_SUITE" ∷ "STRATEGY" ∷ [])
    ∷ class_of "H" 4 ("CISO" ∷ "SECURITY" ∷ "BOARD" ∷ [])
    ∷ class_of "I" 5 ("HR" ∷ "C_SUITE" ∷ [])
    ∷ class_of "J" 4 ("HR" ∷ "C_SUITE" ∷ [])
    ∷ class_of "K" 3 ("HR" ∷ "C_SUITE" ∷ [])
    ∷ class_of "L" 2 ("FINANCE" ∷ "C_SUITE" ∷ [])
    ∷ class_of "M" 5 ("FINANCE" ∷ "C_SUITE" ∷ [])
    ∷ class_of "N" 5 ("FINANCE" ∷ "C_SUITE" ∷ [])
    ∷ []

-- The body of `evaluate_class` once the class is found.
unfoldable pub reference : SensitivityClass → ℕ → List String → Decision
reference sc level roles =
    let role_set = map upper roles in
    if sc.code == "D"
    then (if leb 4 level
        then Decision.allow
        else if leb 2 level
        then Decision.mask
        else Decision.deny)
    else if ltb level sc.min_level
    then Decision.deny
    else if not (is_empty sc.need_to_know_roles) && not (intersects role_set sc.need_to_know_roles)
    then Decision.deny
    else Decision.allow

-- `none` is the KeyError of an unknown class.
unfoldable pub evaluate_class : String → ℕ → List String → Option Decision
unfolding reference
evaluate_class class_code level roles = do
  sc ← lookup class_code classes
  some (reference sc level roles)

pub record Persona : Type 0 where
  pub key : String
  pub clearance_level : ℕ
  pub roles : List String

abbrev persona : String → ℕ → List String → Persona
persona key level roles = record { key = key; clearance_level = level; roles = roles }

abbrev pub personas : List Persona
personas =
    persona "intern" 1 ("INTERN" ∷ "EMPLOYEE" ∷ [])
    ∷ persona "support_agent" 2 ("CUSTOMER_SUPPORT" ∷ "EMPLOYEE" ∷ [])
    ∷ persona "data_analyst" 2 ("DATA_ANALYST" ∷ "EMPLOYEE" ∷ [])
    ∷ persona "ops_analyst" 2 ("OPS_ANALYST" ∷ "EMPLOYEE" ∷ [])
    ∷ persona "commerce_analyst" 2 ("COMMERCE_ANALYST" ∷ "EMPLOYEE" ∷ [])
    ∷ persona "marketing_analyst" 2 ("MARKETING_ANALYST" ∷ "EMPLOYEE" ∷ [])
    ∷ persona "engineer" 2 ("ENGINEER" ∷ "EMPLOYEE" ∷ [])
    ∷ persona "hr_analyst" 4 ("HR" ∷ "EMPLOYEE" ∷ [])
    ∷ persona "sales_manager" 3 ("SALES_MANAGER" ∷ "EMPLOYEE" ∷ [])
    ∷ persona "finance_manager" 4 ("FINANCE" ∷ "FINANCE_MANAGER" ∷ "EMPLOYEE" ∷ [])
    ∷ persona "legal_counsel" 4 ("LEGAL" ∷ "EMPLOYEE" ∷ [])
    ∷ persona "ciso" 4 ("CISO" ∷ "SECURITY" ∷ "EMPLOYEE" ∷ [])
    ∷ persona "strategist" 4 ("STRATEGY" ∷ "EMPLOYEE" ∷ [])
    ∷ persona "cfo" 5 ("C_SUITE" ∷ "FINANCE" ∷ "EMPLOYEE" ∷ [])
    ∷ persona "ceo" 5 ("C_SUITE" ∷ "BOARD" ∷ "CEO" ∷ "EMPLOYEE" ∷ [])
    ∷ []
