-- ===== src/Trace/Gates.antt =====
-- src/rag_engine/trace.py: the gate that a reason names, on the text that
-- src/rag_engine/governance/access.py formats it as. `repr` is Python's, of a text.
pub mod Labels
use Prim.Native.String.{◌++◌}
use enterprise_rag_engine.Prelude.{String, Bool, ◌||◌, List, map, if◌then◌else◌, has_part}
use enterprise_rag_engine.Prelude.Decimal.{to_text}
use enterprise_rag_engine.Schemas.{Reason}
use enterprise_rag_engine.Cache.Key.{join}

module _ (repr : String → String) where
  -- `f"{texts}"`, of a list
  unfoldable pub list_text : List String → String
  list_text texts = "[" ++ (join ", " (map repr texts) ++ "]")

  -- The reason as `evaluate` formats it
  unfoldable pub reason_text : Reason → String
  unfolding list_text
  reason_text Reason.public_content = "public_content"
  reason_text Reason.pii_cleared = "pii_cleared"
  reason_text Reason.pii_masked = "pii_masked"
  reason_text Reason.pii_below_min_level = "pii_below_min_level"
  reason_text Reason.scoped_access = "scoped_access"
  reason_text Reason.clearance_and_role_satisfied = "clearance_and_role_satisfied"
  reason_text (Reason.unrecognized_sensitivity_class cls) =
      "unrecognized_sensitivity_class (" ++ (repr cls ++ ")")
  reason_text (Reason.insufficient_clearance level required) =
      "insufficient_clearance (session L"
      ++ (to_text level ++ (" < required L" ++ (to_text required ++ ")")))
  reason_text (Reason.need_to_know roles) = "need_to_know (need one of " ++ (list_text roles ++ ")")
  reason_text (Reason.role_mismatch roles) =
      "role_mismatch (need one of " ++ (list_text roles ++ ")")

-- `_gate_fired_for`
unfoldable pub gate_fired_for : String → String
gate_fired_for r =
    if has_part "public" r
    then "public"
    else if has_part "pii" r
    then "pii_class_D"
    else if has_part "unrecognized" r
    then "unknown_class"
    else if has_part "insufficient_clearance" r
    then "clearance_level"
    else if has_part "need_to_know" r || has_part "scoped" r
    then "need_to_know"
    else if has_part "role_mismatch" r
    then "allowed_roles"
    else "clearance_and_role"
