-- ===== src/Retrieval/Fusion/Keys.antt =====
-- The keys of a dictionary as insertions change them.
use enterprise_rag_engine.Prelude.{
  String, ◌≡◌, refl, sym, ap, ◌∙◌, true, ◌||◌, some, List, [], ◌∷◌, map, arith, ◌==◌, string_eq,
  beq_sym, if◌then◌else◌, contains, Bool-cases, inl, inr,
}
use enterprise_rag_engine.Prelude.Dict.{Dict, lookup, insert}
use enterprise_rag_engine.Schemas.Roles.{IsDistinct}

abbrev pub keys : {V : Type 0} → Dict String V → List String
keys d = map (λ e. e.0) d

unfoldable pub add_key : String → List String → List String
add_key k [] = k ∷ []
add_key k (j ∷ js) = let rest = add_key k js in if j == k then k ∷ js else j ∷ rest

pub contains-add_key :
    (id k : String) (ks : List String) → contains id (add_key k ks) ≡ (id == k || contains id ks)
unfolding contains add_key
contains-add_key id k [] = refl
contains-add_key id k (j ∷ js) = ground (arith, string_eq.beq_iff j k, contains-add_key id k js)

pub add_key-IsDistinct : (k : String) (ks : List String) → IsDistinct ks → IsDistinct (add_key k ks)
unfolding add_key contains
add_key-IsDistinct k [] h = (refl, tt)
add_key-IsDistinct k (j ∷ js) (new, h) = elim (Bool-cases (j == k)) [
  | inl same ↦ rw same (ap (λ i. contains i js) (sym ((string_eq.beq_iff j k).0 same)) ∙ new, h)
  | inr other ↦ rw other (contains-add_key j k js ∙ rw other new, add_key-IsDistinct k js h)
]

pub keys-insert :
    {V : Type 0} (k : String) (v : V) (d : Dict String V) → keys (insert k v d) ≡ add_key k (keys d)
unfolding insert add_key
keys-insert k v [] = refl
keys-insert k v ((j, w) ∷ d) = elim (Bool-cases (j == k)) [
  | inl same ↦ rw same refl
  | inr other ↦ rw other (rw (keys-insert k v d))
]

pub add_key_old : (k : String) (ks : List String) → contains k ks ≡ true → add_key k ks ≡ ks
unfolding add_key contains
add_key_old k [] h = cc h
add_key_old k (j ∷ js) h = ground (arith, h, string_eq.beq_iff j k, beq_sym k j, add_key_old k js)

pub lookup_known :
    {V : Type 0} (k : String) (d : Dict String V)
    → contains k (keys d) ≡ true
    → (v : V) × (lookup k d ≡ some v)
unfolding lookup contains
lookup_known k [] h = cc h
lookup_known k ((j, w) ∷ d) h = elim (Bool-cases (j == k)) [
  | inl same ↦ (w, rw same)
  | inr other ↦
      let (v, e) = lookup_known k d (ground (arith, h, other, beq_sym k j)) in (v, rw other e)
]
