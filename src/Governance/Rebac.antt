-- ===== src/Governance/Rebac.antt =====
-- src/rag_engine/governance/rebac/local.py: the relationship tuples of a chunk, and the decision
-- derived from them. A Python set is the list of what was added to it: only membership and
-- emptiness are read.
pub mod Tuples
pub mod Parity
use Prim.Native.String.{◌++◌ as concat}
use enterprise_rag_engine.Prelude.{
  ℕ, String, Bool, true, false, not, ◌&&◌, ◌||◌, Option, none, some, List, [], ◌∷◌, ◌++◌, map, ◌==◌,
  string_eq, leb, ltb, if◌then◌else◌, is_empty, intersects, is_nil,
}
use enterprise_rag_engine.Prelude.Decimal.{to_text, to_int}
use enterprise_rag_engine.Prelude.Dict.{Dict, lookup, insert}
use enterprise_rag_engine.Prelude.Fallible.{◌>>=◌}
use enterprise_rag_engine.Schemas.{SecurityContext, EnrichedChunk, Session, is_public}
use enterprise_rag_engine.Governance.Access.{partial_roles, pii_class}

pub record ReBacTuple : Type 0 where
  pub resource : String
  pub relation : String
  pub value : String

unfoldable pub role_tuples : String → String → List String → List ReBacTuple
role_tuples rid relation [] = []
role_tuples rid relation (r ∷ rs) =
    record { resource = rid; relation = relation; value = r } ∷ role_tuples rid relation rs

unfoldable pub governance_tuples : EnrichedChunk → List ReBacTuple
governance_tuples c =
    let rid = concat "chunk:" c.chunk_id in
    let sec = c.security in
    record {
      resource = rid;
      relation = "public";
      value = if is_public sec then "true" else "false";
    }
    ∷ record { resource = rid; relation = "class"; value = sec.sensitivity_class }
    ∷ record { resource = rid; relation = "min_level"; value = to_text sec.clearance_level }
    ∷ (role_tuples rid "ntk_role" sec.need_to_know_roles
        ++ (role_tuples rid "partial_role" (partial_roles c.metadata)
            ++ role_tuples rid "allowed_role" sec.allowed_roles))

-- The facts of one chunk: the single values, and the sets of roles.
pub record Facts : Type 0 where
  pub values : Dict String String
  pub sets : Dict String (List String)

abbrev pub no_facts : Facts
no_facts = record { values = []; sets = [] }

-- `facts.get(relation, set())`
unfoldable pub get_set : String → Dict String (List String) → List String
get_set relation sets = elim (lookup relation sets) [ none ↦ [] | some roles ↦ roles ]

-- The body of the loop over the tuples in `sync`.
unfoldable pub add_fact : Facts → ReBacTuple → Facts
unfolding get_set
add_fact facts t =
    if t.relation == "ntk_role" || t.relation == "partial_role" || t.relation == "allowed_role"
    then record facts {
      sets = insert t.relation (get_set t.relation facts.sets ++ t.value ∷ []) facts.sets;
    }
    else record facts { values = insert t.relation t.value facts.values }

unfoldable pub add_facts : Facts → List ReBacTuple → Facts
add_facts facts [] = facts
add_facts facts (t ∷ ts) = add_facts (add_fact facts t) ts

unfoldable pub facts_of : EnrichedChunk → Facts
facts_of c = add_facts no_facts (governance_tuples c)

-- `int(facts.get("min_level", "0") or "0")`: `none` is the ValueError.
unfoldable pub min_level_of : Facts → Option ℕ
min_level_of facts = elim (lookup "min_level" facts.values) [
  | none ↦ to_int "0"
  | some text ↦ to_int (if is_nil text then "0" else text)
]

unfoldable pub class_fact : Facts → String
class_fact facts = elim (lookup "class" facts.values) [ none ↦ "" | some cls ↦ cls ]

unfoldable pub is_public_fact : Facts → Bool
is_public_fact facts = elim (lookup "public" facts.values) [ none ↦ false | some v ↦ v == "true" ]

-- `_decision_is_retrievable`
unfoldable pub decision_is_retrievable : Facts → Session → Option Bool
decision_is_retrievable facts s =
    let cls = class_fact facts in
    let ntk = get_set "ntk_role" facts.sets in
    let partial_set = get_set "partial_role" facts.sets in
    let allowed = get_set "allowed_role" facts.sets in
    let gates = λ (min_level : ℕ).
      (if ltb s.clearance_level min_level
        then false
        else if not (is_empty ntk) && not (intersects s.roles ntk)
        then not (is_empty partial_set) && intersects s.roles partial_set
        else if is_nil cls
        then intersects s.roles allowed
        else true) in
    if is_public_fact facts
    then some true
    else if cls == pii_class
    then some (leb 2 s.clearance_level)
    else min_level_of facts >>= λ n. some (gates n)

-- `LocalReBACAllowlist._facts`
abbrev pub FactStore : Type 0
FactStore = Dict String Facts

unfoldable pub sync : FactStore → List EnrichedChunk → FactStore
sync store [] = store
sync store (c ∷ cs) = sync (insert c.chunk_id (facts_of c) store) cs

-- Syncs a candidate that is not in the store yet.
unfoldable pub auto_sync : FactStore → EnrichedChunk → FactStore
unfolding sync
auto_sync store c = elim (lookup c.chunk_id store) [ none ↦ sync store (c ∷ []) | some _ ↦ store ]

-- `LocalReBACAllowlist.authorized_ids`: the store that is left, and the ids unless it raised.
unfoldable pub rebac_ids :
    FactStore → Session → List EnrichedChunk → FactStore × Option (List String)
rebac_ids store s [] = (store, some [])
rebac_ids store s (c ∷ cs) =
    let store' = auto_sync store c in
    let facts : Facts = elim (lookup c.chunk_id store') [ none ↦ no_facts | some f ↦ f ] in
    let (after, rest) = rebac_ids store' s cs in
    elim (decision_is_retrievable facts s) [
      | none ↦ (store', none)
      | some hit ↦ (after, rest >>= λ out. some (if hit then c.chunk_id ∷ out else out))
    ]
