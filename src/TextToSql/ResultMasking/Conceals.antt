-- ===== src/TextToSql/ResultMasking/Conceals.antt =====
-- The values of masked columns do not reach the result, whatever the query calls them.
use enterprise_rag_engine.Prelude.{
  String, ◌≡◌, refl, ◌∙◌, Bool, true, false, not, ◌&&◌, ◌||◌, some, List, [], ◌∷◌, map, ◌==◌,
  string_eq, if◌then◌else◌, lower, any, is_some, is_empty, arith, Option-cases, Bool-cases, inl,
  inr,
}
use enterprise_rag_engine.Prelude.Dict.{Dict, lookup, insert, lookup-insert}
use enterprise_rag_engine.Schemas.{Value}
use enterprise_rag_engine.TextToSql.ResultMasking.{
  ColumnPolicy, ProjectionSource, Redaction, masked_from, first_hit, redaction_of, redact_from,
  policy_for, mask_cell, mask_rows,
}

-- A masked column of the name, up to case
abbrev pub is_masked : List ColumnPolicy → String → Bool
is_masked columns name = any (λ (c : ColumnPolicy). c.masked && lower c.name == lower name) columns

-- A projection under the key that has a masked source column, or an unknown source
abbrev pub is_derived : List ColumnPolicy → String → ProjectionSource → Bool
is_derived columns key p =
    not p.is_star
    && lower p.output_key == lower key
    && (not p.resolvable || any (is_masked columns) p.source_columns)

abbrev pub is_concealed : List ColumnPolicy → List ProjectionSource → String → Bool
is_concealed columns ps key = is_masked columns key || any (is_derived columns key) ps

lookup-masked_from :
    (acc : Dict String ColumnPolicy) (cs : List ColumnPolicy) (name : String)
    → is_some (lookup (lower name) (masked_from acc cs))
      ≡ (is_some (lookup (lower name) acc) || is_masked cs name)
unfolding masked_from any
lookup-masked_from acc [] name = ground arith
lookup-masked_from acc (c ∷ cs) name =
    let rest = lookup-masked_from (if c.masked then insert (lower c.name) c acc else acc) cs name in
    rest ∙ ground (arith, lookup-insert (lower c.name) (lower name) c acc)

some-first_hit :
    (columns : List ColumnPolicy) (ss : List String)
    → is_some (first_hit (masked_from [] columns) ss) ≡ any (is_masked columns) ss
unfolding first_hit any lookup
some-first_hit columns [] = refl
some-first_hit columns (s ∷ ss) =
    let here = lookup-masked_from [] columns s in
    let rest = some-first_hit columns ss in
    elim (Option-cases (lookup (lower s) (masked_from [] columns))) [
      | inl absent ↦ rw (first_hit, absent) (ground (arith, here, absent, rest))
      | inr (c, present) ↦ rw (first_hit, present) (ground (arith, here, present))
    ]

some-redaction_of :
    (columns : List ColumnPolicy) (p : ProjectionSource)
    → is_some (redaction_of (masked_from [] columns) p)
      ≡ (not p.is_star && (not p.resolvable || any (is_masked columns) p.source_columns))
unfolding redaction_of
some-redaction_of columns p =
    let hit = some-first_hit columns p.source_columns in
    elim (Option-cases (first_hit (masked_from [] columns) p.source_columns)) [
      | inl absent ↦ ground (arith, hit, absent)
      | inr (c, present) ↦ ground (arith, hit, present)
    ]

lookup-redact_from :
    (columns : List ColumnPolicy) (acc : Dict String Redaction) (ps : List ProjectionSource)
    (key : String)
    → is_some (lookup (lower key) (redact_from (masked_from [] columns) acc ps))
      ≡ (is_some (lookup (lower key) acc) || any (is_derived columns key) ps)
unfolding redact_from any
lookup-redact_from columns acc [] key = ground arith
lookup-redact_from columns acc (p ∷ ps) key =
    let here = some-redaction_of columns p in
    elim (Option-cases (redaction_of (masked_from [] columns) p)) [
      | inl untouched ↦
          rw (redact_from, untouched)
            (lookup-redact_from columns acc ps key ∙ ground (arith, here, untouched))
      | inr (r, touched) ↦
          rw (redact_from, touched)
            (lookup-redact_from columns (insert (lower p.output_key) r acc) ps key
              ∙ ground (arith, here, touched, lookup-insert (lower p.output_key) (lower key) r acc))
    ]

-- A concealed key has a redaction.
some-policy_for :
    (columns : List ColumnPolicy) (ps : List ProjectionSource) (key : String)
    → is_concealed columns ps key ≡ true
    → is_some (policy_for (masked_from [] columns) (redact_from (masked_from [] columns) [] ps) key)
      ≡ true
unfolding policy_for lookup
some-policy_for columns ps key h =
    let masked = lookup-masked_from [] columns key in
    let derived = lookup-redact_from columns [] ps key in
    elim (Option-cases (lookup (lower key) (redact_from (masked_from [] columns) [] ps))) [
      | inr (r, found) ↦ rw (policy_for, found)
      | inl absent ↦ elim (Option-cases (lookup (lower key) (masked_from [] columns))) [
        | inr (c, present) ↦ rw (policy_for, absent, present)
        | inl missing ↦ ground (arith, h, masked, derived, absent, missing)
      ]
    ]

-- A row in which the concealed values are other ones
abbrev pub vary_cell :
    List ColumnPolicy
    → List ProjectionSource
    → (String → Value → Value)
    → String × Value
    → String × Value
vary_cell columns ps f (key, v) = (key, if is_concealed columns ps key then f key v else v)

mask_cell-vary_cell :
    (columns : List ColumnPolicy) (ps : List ProjectionSource) (f : String → Value → Value)
    (x : String × Value)
    → mask_cell
        (masked_from [] columns)
        (redact_from (masked_from [] columns) [] ps)
        (vary_cell columns ps f x)
      ≡ mask_cell (masked_from [] columns) (redact_from (masked_from [] columns) [] ps) x
unfolding mask_cell
mask_cell-vary_cell columns ps f (key, v) = elim (Bool-cases (is_concealed columns ps key)) [
  | inr open_key ↦ rw open_key
  | inl concealed ↦
      let has = some-policy_for columns ps key concealed in
      elim (Option-cases
        (policy_for (masked_from [] columns) (redact_from (masked_from [] columns) [] ps) key)) [
          | inl absent ↦ ground (arith, has, absent)
          | inr (r, found) ↦ rw (mask_cell, found)
        ]
]

map-same :
    {A : Type 0} (f g : A → A) (xs : List A)
    → ((x : A) → f (g x) ≡ f x)
    → map f (map g xs) ≡ map f xs
map-same f g [] h = refl
map-same f g (x ∷ xs) h = rw (h x, map-same f g xs h)

-- If some column is masked, the masked rows do not depend on any value under a key that names a
-- masked column, up to case, or that a projection computes from a masked column or from a source
-- that is not known, under whatever alias.
pub mask_rows-vary :
    (rows : List (Dict String Value)) (columns : List ColumnPolicy) (ps : List ProjectionSource)
    (f : String → Value → Value)
    → is_empty (masked_from [] columns) ≡ false
    → mask_rows (map (map (vary_cell columns ps f)) rows) columns true (some ps)
      ≡ mask_rows rows columns true (some ps)
unfolding mask_rows
mask_rows-vary rows columns ps f some_masked = rw some_masked (
    map-same (map (mask_cell (masked_from [] columns) (redact_from (masked_from [] columns) [] ps)))
      (map (vary_cell columns ps f)) rows
      (λ row.
        map-same (mask_cell (masked_from [] columns) (redact_from (masked_from [] columns) [] ps))
          (vary_cell columns ps f) row (mask_cell-vary_cell columns ps f)))
