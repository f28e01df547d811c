-- ===== src/Deploy/Synthetic.antt =====
-- `assert_synthetic_only` of src/rag_engine/deploy/guards.py. The environment is a parameter.
use text.Mathlib.Text.{starts_with}
use enterprise_rag_engine.Prelude.{
  String, Bool, true, not, ◌&&◌, List, [], ◌∷◌, ◌++◌, ◌==◌, string_eq, if◌then◌else◌, is_nil,
  contains, keep, map, is_empty, has_part,
}

-- What the check reads of the configuration
pub record DemoConfig : Type 0 where
  pub demo_profile : String
  pub store_backend : String
  pub surreal_dsn : String
  pub selfrag_grader : String
  pub sql_generator : String

pub data Violation : Type 0 where
  live_dsn : String → Violation
  live_credential : String → Violation
  live_grader : Violation
  live_sql : String → Violation

abbrev pub credentials : List String
credentials = "GROQ_API_KEY" ∷ "RAG_SQL_LLM_API_KEY" ∷ "VOYAGE_API_KEY" ∷ "ANTHROPIC_API_KEY" ∷ []

unfoldable pub is_live_dsn : DemoConfig → Bool
unfolding has_part
is_live_dsn config =
    config.store_backend == "surrealdb"
    && starts_with config.surreal_dsn "wss://"
    && not (has_part "127.0.0.1" config.surreal_dsn)
    && not (has_part "localhost" config.surreal_dsn)

abbrev when : Bool → Violation → List Violation
when b v = if b then v ∷ [] else []

-- `getenv` gives the empty text for a variable that is not set.
unfoldable pub violations : (String → String) → DemoConfig → List Violation
unfolding is_live_dsn
violations getenv config =
    when (is_live_dsn config) (live_dsn config.surreal_dsn)
    ++ map (λ name. live_credential name) (keep (λ name. not (is_nil (getenv name))) credentials)
    ++ when (config.selfrag_grader == "openai") live_grader
    ++ when (contains config.sql_generator ("groq" ∷ "nvidia" ∷ [])) (live_sql config.sql_generator)

-- `assert_synthetic_only`: whether it lets the service start, or raises.
unfoldable pub assert_synthetic_only : (String → String) → DemoConfig → Bool
unfolding violations
assert_synthetic_only getenv config =
    if not (config.demo_profile == "synthetic") then true else is_empty (violations getenv config)
