-- ===== src/Governance/Rebac/Tuples.antt =====
-- The facts of a chunk give back what its tuples were written from.
use Prim.Native.String.{◌++◌ as concat}
use mathlib.Core.List.{append-nil, append_assoc}
use enterprise_rag_engine.Prelude.{
  String, ◌≡◌, refl, ap, ◌∙◌, ◌⊎◌, Bool, true, false, ◌||◌, List, [], ◌∷◌, ◌++◌, ◌==◌, string_eq,
  if◌then◌else◌, arith, Bool-cases, inl, inr,
}
use enterprise_rag_engine.Prelude.Decimal.{to_text}
use enterprise_rag_engine.Prelude.Dict.{Dict, lookup, insert, lookup-insert}
use enterprise_rag_engine.Schemas.{EnrichedChunk, is_public}
use enterprise_rag_engine.Governance.Access.{partial_roles}
use enterprise_rag_engine.Governance.Rebac.{
  ReBacTuple, Facts, role_tuples, governance_tuples, get_set, add_fact, add_facts, facts_of,
}

get_set-insert :
    (k j : String) (v : List String) (sets : Dict String (List String))
    → get_set j (insert k v sets) ≡ (if k == j then v else get_set j sets)
unfolding get_set
get_set-insert k j v sets = ground (arith, lookup-insert k j v sets)

-- The tests on the relation of a tuple.
abbrev pub is_role_relation : String → Bool
is_role_relation r = r == "ntk_role" || r == "partial_role" || r == "allowed_role"

add_facts-append :
    (facts : Facts) (ts us : List ReBacTuple)
    → add_facts facts (ts ++ us) ≡ add_facts (add_facts facts ts) us
unfolding add_facts
add_facts-append facts [] us = refl
add_facts-append facts (t ∷ ts) us = add_facts-append (add_fact facts t) ts us

add_fact-role :
    (rid relation j v : String) (facts : Facts)
    → is_role_relation relation ≡ true
    → let after = add_fact facts (record { resource = rid; relation = relation; value = v }) in
      (after.values ≡ facts.values)
      × (get_set j after.sets
          ≡ (if relation == j then get_set j facts.sets ++ v ∷ [] else get_set j facts.sets))
unfolding add_fact
add_fact-role rid relation j v facts h =
    (rw h, rw h (get_set-insert relation j _ facts.sets ∙ at_same (Bool-cases (relation == j))))
  where
    at_same :
        (((relation == j) ≡ true) ⊎ ((relation == j) ≡ false))
        → (if relation == j then get_set relation facts.sets ++ v ∷ [] else get_set j facts.sets)
          ≡ (if relation == j then get_set j facts.sets ++ v ∷ [] else get_set j facts.sets)
    at_same (inl e) = rw ((string_eq.beq_iff relation j).0 e)
    at_same (inr e) = rw e

-- Adding role tuples leaves the single values alone, adds to one set and leaves the others.
add_facts-role_tuples :
    (rid relation j : String) (roles : List String) (facts : Facts)
    → is_role_relation relation ≡ true
    → let after = add_facts facts (role_tuples rid relation roles) in
      (after.values ≡ facts.values)
      × (get_set j after.sets
          ≡ (if relation == j then get_set j facts.sets ++ roles else get_set j facts.sets))
unfolding add_facts role_tuples
add_facts-role_tuples rid relation j [] facts h = (refl, simp append-nil (ground arith))
add_facts-role_tuples rid relation j (r ∷ rs) facts h =
    let facts' = add_fact facts (record { resource = rid; relation = relation; value = r }) in
    let (values, sets) = add_facts-role_tuples rid relation j rs facts' h in
    let (values', sets') = add_fact-role rid relation j r facts h in
    (
      values ∙ values',
      elim (Bool-cases (relation == j)) [
        | inl e ↦ sets ∙ rw (sets', e) (append_assoc _ (r ∷ []) rs)
        | inr e ↦ sets ∙ rw (sets', e)
      ],
    )

-- The three single values that `governance_tuples` writes first.
abbrev pub base_values : EnrichedChunk → Dict String String
base_values c =
    ("public", if is_public c.security then "true" else "false")
    ∷ ("class", c.security.sensitivity_class)
    ∷ ("min_level", to_text c.security.clearance_level)
    ∷ []

-- The three groups of role tuples, added one after the other to facts without sets.
add_facts-groups :
    (rid : String) (values : Dict String String) (ns ps qs : List String)
    → let after =
        add_facts
          (record { values = values; sets = [] })
          (role_tuples rid "ntk_role" ns
            ++ (role_tuples rid "partial_role" ps ++ role_tuples rid "allowed_role" qs)) in
      (after.values ≡ values)
      × (get_set "ntk_role" after.sets ≡ ns)
      × (get_set "partial_role" after.sets ≡ ps)
      × (get_set "allowed_role" after.sets ≡ qs)
unfolding get_set lookup
add_facts-groups rid values ns ps qs =
    let f : Facts = record { values = values; sets = [] } in
    let g = add_facts f (role_tuples rid "ntk_role" ns) in
    let h = add_facts g (role_tuples rid "partial_role" ps) in
    let first = λ (j : String). add_facts-role_tuples rid "ntk_role" j ns f refl in
    let second = λ (j : String). add_facts-role_tuples rid "partial_role" j ps g refl in
    let third = λ (j : String). add_facts-role_tuples rid "allowed_role" j qs h refl in
    rw (add_facts-append, add_facts-append)
      (
        (third "").0 ∙ (second "").0 ∙ (first "").0,
        (third "ntk_role").1 ∙ (second "ntk_role").1 ∙ (first "ntk_role").1,
        (third "partial_role").1
            ∙ (second "partial_role").1
            ∙ ap (λ (x : List String). x ++ ps) (first "partial_role").1,
        (third "allowed_role").1
            ∙ ap (λ (x : List String). x ++ qs)
                ((second "allowed_role").1 ∙ (first "allowed_role").1),
      )

-- The facts of a chunk hold its three values and its three lists of roles.
pub facts_of_lem :
    (c : EnrichedChunk)
    → ((facts_of c).values ≡ base_values c)
      × (get_set "ntk_role" (facts_of c).sets ≡ c.security.need_to_know_roles)
      × (get_set "partial_role" (facts_of c).sets ≡ partial_roles c.metadata)
      × (get_set "allowed_role" (facts_of c).sets ≡ c.security.allowed_roles)
unfolding facts_of governance_tuples add_facts add_fact insert
facts_of_lem c =
    add_facts-groups (concat "chunk:" c.chunk_id) (base_values c) c.security.need_to_know_roles
      (partial_roles c.metadata) c.security.allowed_roles
