-- ===== src/Schemas/Tests.antt =====
-- The validators at concrete roles.
use enterprise_rag_engine.Prelude.{
  String, ◌≡◌, ◌≤◌, refl, List, [], ◌∷◌, none, some, contains, upper, strip, has_control, string_eq,
}
use enterprise_rag_engine.Schemas.{Session}
use enterprise_rag_engine.Schemas.Roles.{
  make_session, session_roles, normalise_roles, make_session-eq-some,
}

abbrev given_roles : List String
given_roles = " hr " ∷ "HR" ∷ "" ∷ "finance" ∷ []

normalise_roles_test : normalise_roles given_roles ≡ "HR" ∷ "FINANCE" ∷ []
unfolding normalise_roles upper strip contains
normalise_roles_test = refl

abbrev analyst : Session
analyst = record { user_id = "u1"; roles = "HR" ∷ "FINANCE" ∷ []; clearance_level = 3 }

make_session_test : make_session "u1" (" hr" ∷ "" ∷ "Finance" ∷ []) 3 ≡ some analyst
unfolding make_session session_roles strip has_control upper
make_session_test = refl

make_session_control : make_session "u1" ("h\u{7}r" ∷ []) 3 ≡ none
unfolding make_session session_roles strip has_control upper
make_session_control = refl

make_session-eq-some_example :
    (analyst.clearance_level ≤ 5)
    × (session_roles (" hr" ∷ "" ∷ "Finance" ∷ []) ≡ some analyst.roles)
    × (analyst.clearance_level ≡ 3)
make_session-eq-some_example =
    make_session-eq-some "u1" (" hr" ∷ "" ∷ "Finance" ∷ []) 3 analyst make_session_test
