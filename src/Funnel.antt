-- ===== src/Funnel.antt =====
-- src/rag_engine/funnel/trace.py: the stages that the candidates of a query pass.
pub mod Reduces
mod Tests
use enterprise_rag_engine.Prelude.{
  ℕ, String, Bool, true, false, ◌&&◌, Option, none, some, List, [], ◌∷◌, ◌++◌, string_eq, leb, ltb,
  if◌then◌else◌,
}
use enterprise_rag_engine.Prelude.Dict.{Dict, lookup}
use enterprise_rag_engine.Prelude.Fallible.{◌>>=◌}
use Prim.Native.String.{◌++◌ as concat}

pub record FunnelStage : Type 0 where
  pub name : String
  pub count : Option ℕ
  pub bytes : Option ℕ
  pub note : String
  pub provenance_url : String

-- `FunnelTrace.stages`
abbrev pub FunnelTrace : Type 0
FunnelTrace = List FunnelStage

-- `_last_count`: the count of the last stage that has one
unfoldable pub last_count : FunnelTrace → Option ℕ
last_count [] = none
last_count (s ∷ ss) = elim (last_count ss) [ some c ↦ some c | none ↦ s.count ]

-- `count is not None and prev is not None and count > prev`
unfoldable pub grows : Option ℕ → Option ℕ → Bool
grows none prev = false
grows (some count) none = false
grows (some count) (some prev) = ltb prev count

-- `FunnelTrace.stage`; `none` is the ValueError.
unfoldable pub stage : FunnelStage → FunnelTrace → Option FunnelTrace
unfolding last_count grows
stage s trace = if grows s.count (last_count trace) then none else some (trace ++ s ∷ [])

-- `counted`
unfoldable pub counted : FunnelTrace → List ℕ
counted [] = []
counted (s ∷ ss) = elim s.count [ none ↦ counted ss | some c ↦ c ∷ counted ss ]

unfoldable pub non_increasing : List ℕ → Bool
non_increasing [] = true
non_increasing (a ∷ []) = true
non_increasing (a ∷ b ∷ cs) = leb b a && non_increasing (b ∷ cs)

-- `is_monotonic_non_increasing`
unfoldable pub is_monotonic_non_increasing : FunnelTrace → Bool
unfolding counted non_increasing
is_monotonic_non_increasing trace = non_increasing (counted trace)

-- What a catalog gives for an asset
pub record ScaleBadge : Type 0 where
  pub scale_badge : String
  pub provenance_url : String

abbrev pub tail_stage : String → ScaleBadge → FunnelStage
tail_stage aid a = record {
  name = concat "pb_tail:" aid;
  count = none;
  bytes = none;
  note = a.scale_badge;
  provenance_url = a.provenance_url;
}

abbrev pub count_stage : String → ℕ → FunnelStage
count_stage name n = record {
  name = name;
  count = some n;
  bytes = none;
  note = "";
  provenance_url = "";
}

-- The stated scales, from the trace on; `none` is the KeyError of an unknown asset.
unfoldable pub add_tail :
    (String → Option ScaleBadge) → List String → FunnelTrace → Option FunnelTrace
unfolding stage
add_tail catalog [] t = some t
add_tail catalog (aid ∷ aids) t =
    catalog aid >>= λ a. stage (tail_stage aid a) t >>= λ t'. add_tail catalog aids t'

-- The counted stages, in the order of the names
unfoldable pub add_counts : Dict String ℕ → List String → FunnelTrace → Option FunnelTrace
unfolding stage
add_counts counts [] t = some t
add_counts counts (name ∷ names) t = elim (lookup name counts) [
  | none ↦ add_counts counts names t
  | some n ↦ stage (count_stage name n) t >>= λ t'. add_counts counts names t'
]

abbrev pub funnel_order : List String
funnel_order =
    "indexable_derivative" ∷ "structured_prefilter" ∷ "coarse_ann" ∷ "rerank" ∷ "final_top_k" ∷ []

unfoldable pub compute_funnel :
    (String → Option ScaleBadge) → Dict String ℕ → List String → Option FunnelTrace
unfolding add_tail add_counts
compute_funnel catalog counts pb_tail_asset_ids =
    add_tail catalog pb_tail_asset_ids [] >>= λ t. add_counts counts funnel_order t
