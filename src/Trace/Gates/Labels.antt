-- ===== src/Trace/Gates/Labels.antt =====
-- Which gate a trace names for a class that is not recognised.
use Prim.Native.String.{[], ◌∷◌, ◌++◌}
use text.Mathlib.Text.{starts_with}
use text.Mathlib.TextEquality.{starts_with_iff}
use text.Mathlib.TextLemmas.{append_assoc, nil-append, cons-append}
use enterprise_rag_engine.Prelude.{
  String, ◌≡◌, refl, sym, ap, ◌∙◌, true, false, arith, has_part, is_nil, contains, string_eq,
  Bool-cases, inl, inr,
}
use enterprise_rag_engine.Schemas.{EnrichedChunk, Session, Decision, is_public}
use enterprise_rag_engine.Governance.Access.{evaluate, valid_classes}
use enterprise_rag_engine.Trace.Gates.{reason_text, gate_fired_for}

starts_with-append_right : (p s t : String) → starts_with s p ≡ true → starts_with (s ++ t) p ≡ true
starts_with-append_right p s t h =
    let (u, e) = (starts_with_iff s p).0 h in
    (starts_with_iff (s ++ t) p).1 (u ++ t, sym (append_assoc p u t) ∙ ap (λ v. v ++ t) e)

has_part-append_left : (p s t : String) → has_part p t ≡ true → has_part p (s ++ t) ≡ true
unfolding has_part
has_part-append_left p [] t h = ap (has_part p) (nil-append t) ∙ h
has_part-append_left p (c ∷ s) t h =
    ap (has_part p) (cons-append c s t) ∙ ground (arith, has_part-append_left p s t h)

has_nil : (t : String) → has_part [] t ≡ true
unfolding has_part
has_nil [] = refl
has_nil (c ∷ t) = rw ((starts_with_iff (c ∷ t) []).1 (c ∷ t, nil-append (c ∷ t))) refl

has_part-append_right : (p s t : String) → has_part p s ≡ true → has_part p (s ++ t) ≡ true
unfolding has_part
has_part-append_right [] [] t h = has_nil ([] ++ t)
has_part-append_right (c ∷ p) [] t h = cc h
has_part-append_right p (c ∷ s) t h =
    ap (has_part p) (cons-append c s t) ∙ elim (Bool-cases (starts_with (c ∷ s) p)) [
      | inl first ↦
          rw
            (sym (ap (λ v. starts_with v p) (cons-append c s t))
              ∙ starts_with-append_right p (c ∷ s) t first)
            refl
      | inr later ↦ ground (arith, has_part-append_right p s t (ground (arith, h, later)))
    ]

-- A chunk whose class is not recognised is denied, and where the class has the word "public" in its
-- representation, a trace names the gate of public content for that.
pub gate_fired_for_public :
    (repr : String → String) (c : EnrichedChunk) (s : Session)
    → is_public c.security ≡ false
    → is_nil c.security.sensitivity_class ≡ false
    → contains c.security.sensitivity_class valid_classes ≡ false
    → has_part "public" (repr c.security.sensitivity_class) ≡ true
    → ((evaluate c s).decision ≡ Decision.deny)
      × (gate_fired_for (reason_text repr (evaluate c s).reason) ≡ "public")
unfolding evaluate gate_fired_for reason_text
gate_fired_for_public repr c s private classed unknown word = rw private (
    rw classed (
      rw unknown (
        refl,
        rw
            (has_part-append_left "public" "unrecognized_sensitivity_class (" _
              (has_part-append_right "public" (repr c.security.sensitivity_class) ")" word))
            refl,
      )))
