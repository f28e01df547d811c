-- ===== src/TextToSql/ResultMasking.antt =====
-- src/rag_engine/texttosql/result_masking.py. What a projection is made of comes from a parser
-- that is not modelled.
pub mod Conceals
use enterprise_rag_engine.Prelude.{
  String, Bool, true, false, not, Option, none, some, List, [], ◌∷◌, map, string_eq, if◌then◌else◌,
  lower, is_empty,
}
use enterprise_rag_engine.Prelude.Dict.{Dict, lookup, insert}
use enterprise_rag_engine.Schemas.{Value}
use enterprise_rag_engine.Governance.Masking.{MaskReason, mask_reason_of, mask_value}

pub record ColumnPolicy : Type 0 where
  pub name : String
  pub pii : Bool
  pub masked : Bool
  pub mask_reason : String

pub record ProjectionSource : Type 0 where
  pub output_key : String
  pub source_columns : List String
  pub is_star : Bool
  pub resolvable : Bool

-- A value of `redact`: the policy of a column, or `_FAILCLOSED`
pub data Redaction : Type 0 where
  by_column : ColumnPolicy → Redaction
  fail_closed : Redaction

-- `_reason_token`
unfoldable pub reason_token : ColumnPolicy → String
reason_token col = elim (mask_reason_of (lower col.mask_reason)) [
  | none ↦ mask_value MaskReason.pii_mask
  | some reason ↦ mask_value reason
]

-- `{c.name.casefold(): c for c in columns if c.masked}`, from a dictionary on
unfoldable pub masked_from : Dict String ColumnPolicy → List ColumnPolicy → Dict String ColumnPolicy
masked_from acc [] = acc
masked_from acc (c ∷ cs) = masked_from (if c.masked then insert (lower c.name) c acc else acc) cs

-- The first source column that is masked
unfoldable pub first_hit : Dict String ColumnPolicy → List String → Option ColumnPolicy
first_hit masked [] = none
first_hit masked (s ∷ ss) =
    let rest = first_hit masked ss in
    elim (lookup (lower s) masked) [ none ↦ rest | some c ↦ some c ]

unfoldable pub redaction_of : Dict String ColumnPolicy → ProjectionSource → Option Redaction
unfolding first_hit
redaction_of masked p =
    if p.is_star
    then none
    else if not p.resolvable
    then some fail_closed
    else elim (first_hit masked p.source_columns) [ none ↦ none | some c ↦ some (by_column c) ]

-- `redact`, from a dictionary on
unfoldable pub redact_from :
    Dict String ColumnPolicy → Dict String Redaction → List ProjectionSource → Dict String Redaction
unfolding redaction_of
redact_from masked acc [] = acc
redact_from masked acc (p ∷ ps) =
    redact_from masked
      (elim (redaction_of masked p) [ none ↦ acc | some r ↦ insert (lower p.output_key) r acc ]) ps

unfoldable pub token_of : Redaction → String
unfolding reason_token
token_of (by_column c) = reason_token c
token_of fail_closed = mask_value MaskReason.pii_mask

-- What applies to the key of a cell
unfoldable pub policy_for :
    Dict String ColumnPolicy → Dict String Redaction → String → Option Redaction
policy_for masked redact key = elim (lookup (lower key) redact) [
  | some r ↦ some r
  | none ↦ elim (lookup (lower key) masked) [ none ↦ none | some c ↦ some (by_column c) ]
]

unfoldable pub mask_cell :
    Dict String ColumnPolicy → Dict String Redaction → String × Value → String × Value
unfolding policy_for token_of
mask_cell masked redact (key, v) = elim (policy_for masked redact key) [
  | none ↦ (key, v)
  | some r ↦ (key, Value.text (token_of r))
]

-- `mask_rows`; without projections the keys of the output decide.
unfoldable pub mask_rows :
    List (Dict String Value)
    → List ColumnPolicy
    → Bool
    → Option (List ProjectionSource)
    → List (Dict String Value)
unfolding masked_from redact_from mask_cell
mask_rows rows columns mask projections =
    let masked = masked_from [] columns in
    if not mask then rows else if is_empty masked then rows else elim projections [
      | some ps ↦ map (map (mask_cell masked (redact_from masked [] ps))) rows
      | none ↦ map (map (mask_cell masked [])) rows
    ]
