-- ===== src/Funnel/Reduces.antt =====
-- What `compute_funnel` builds: the stages in order, unless a count would grow.
use mathlib.Core.List.{append_assoc, append-nil}
use enterprise_rag_engine.Prelude.{
  ℕ, ◌≤◌, String, ◌≡◌, refl, sym, ap, ◌∙◌, true, false, Option, none, some, List, [], ◌∷◌, ◌++◌,
  map, string_eq, ltb, arith, All, Bool-cases, Option-cases, inl, inr,
}
use enterprise_rag_engine.Prelude.Dict.{Dict, lookup}
use enterprise_rag_engine.Prelude.Fallible.{◌>>=◌}
use enterprise_rag_engine.Funnel.{
  FunnelStage, FunnelTrace, ScaleBadge, tail_stage, count_stage, last_count, grows, stage, add_tail,
  add_counts, funnel_order, compute_funnel,
}

-- Each number is at most the one before it, the first at most `m`.
abbrev pub AreAtMost : ℕ → List ℕ → Type 0
AreAtMost m [] = Unit
AreAtMost m (n ∷ ns) = (n ≤ m) × AreAtMost n ns

-- Each number is at most the one before it.
abbrev pub Descends : List ℕ → Type 0
Descends [] = Unit
Descends (n ∷ ns) = AreAtMost n ns

-- The names that have a count, in order, with it
unfoldable pub given_counts : Dict String ℕ → List String → List (String × ℕ)
given_counts counts [] = []
given_counts counts (name ∷ names) =
    let rest = given_counts counts names in
    elim (lookup name counts) [ none ↦ rest | some n ↦ (name, n) ∷ rest ]

abbrev pub numbers : List (String × ℕ) → List ℕ
numbers = map (λ e. e.1)

abbrev pub count_stages : List (String × ℕ) → FunnelTrace
count_stages = map (λ e. count_stage e.0 e.1)

abbrev pub tail_stages : (String → ScaleBadge) → List String → FunnelTrace
tail_stages badge = map (λ aid. tail_stage aid (badge aid))

-- Below the last count, if there is one
abbrev DescendsFrom : Option ℕ → List ℕ → Type 0
DescendsFrom none ns = Descends ns
DescendsFrom (some m) ns = AreAtMost m ns

last_count-snoc :
    (t : FunnelTrace) (s : FunnelStage) (n : ℕ)
    → s.count ≡ some n
    → last_count (t ++ s ∷ []) ≡ some n
unfolding last_count
last_count-snoc [] s n h = h
last_count-snoc (x ∷ t) s n h = rw (last_count-snoc t s n h) refl

last_count-tail_stages :
    (badge : String → ScaleBadge) (aids : List String) → last_count (tail_stages badge aids) ≡ none
unfolding last_count
last_count-tail_stages badge [] = refl
last_count-tail_stages badge (aid ∷ aids) = rw (last_count-tail_stages badge aids) refl

add_tail_lem :
    (catalog : String → Option ScaleBadge) (badge : String → ScaleBadge) (aids : List String)
    (t : FunnelTrace)
    → All (λ aid. catalog aid ≡ some (badge aid)) aids
    → add_tail catalog aids t ≡ some (t ++ tail_stages badge aids)
unfolding add_tail stage grows
add_tail_lem catalog badge [] t h = ap (λ u. some u) (sym (append-nil t))
add_tail_lem catalog badge (aid ∷ aids) t (known, h) = rw known (
    add_tail_lem catalog badge aids (t ++ tail_stage aid (badge aid) ∷ []) h
    ∙ ap (λ u. some u) (append_assoc t (tail_stage aid (badge aid) ∷ []) (tail_stages badge aids)))

-- A stage that does not grow is added, and one that grows is refused.
stage-fits :
    (name : String) (n : ℕ) (t : FunnelTrace)
    → grows (some n) (last_count t) ≡ false
    → stage (count_stage name n) t ≡ some (t ++ count_stage name n ∷ [])
unfolding stage
stage-fits name n t h = rw h

stage-grows :
    (name : String) (n : ℕ) (t : FunnelTrace)
    → grows (some n) (last_count t) ≡ true
    → stage (count_stage name n) t ≡ none
unfolding stage
stage-grows name n t h = rw h

abbrev Builds : Option FunnelTrace → Type 0 → FunnelTrace → Type 0
Builds result P t = (P → result ≡ some t) × (¬ P → result ≡ none)

module _ (counts : Dict String ℕ) (names : List String) (name : String) (n : ℕ) where
  -- The funnel from the stage of a count on
  abbrev from_stage : FunnelTrace → Option FunnelTrace
  from_stage t = stage (count_stage name n) t >>= λ t'. add_counts counts names t'

  abbrev Rest : FunnelTrace → Type 0
  Rest t =
      Builds (add_counts counts names (t ++ count_stage name n ∷ []))
        (AreAtMost n (numbers (given_counts counts names)))
        ((t ++ count_stage name n ∷ []) ++ count_stages (given_counts counts names))

  from_stage_fits :
      (t : FunnelTrace)
      → grows (some n) (last_count t) ≡ false
      → Rest t
      → Builds
          (from_stage t)
          (AreAtMost n (numbers (given_counts counts names)))
          (t ++ count_stages ((name, n) ∷ given_counts counts names))
  from_stage_fits t fits (good, bad) =
      let glued =
        append_assoc t (count_stage name n ∷ []) (count_stages (given_counts counts names)) in
      rw (stage-fits name n t fits) ((λ h. good h ∙ ap (λ u. some u) glued), (λ h. bad h))

  from_stage_lem :
      (t : FunnelTrace) (o : Option ℕ)
      → last_count t ≡ o
      → Rest t
      → Builds
          (from_stage t)
          (DescendsFrom o (n ∷ numbers (given_counts counts names)))
          (t ++ count_stages ((name, n) ∷ given_counts counts names))
  unfolding grows
  from_stage_lem t none e rest = from_stage_fits t (rw e refl) rest
  from_stage_lem t (some m) e rest = elim (Bool-cases (ltb m n)) [
    | inl more ↦ (
      λ h. let le = h.0 in absurd (ground (arith, more, le)),
      λ h. rw (stage-grows name n t (rw e more)) refl,
    )
    | inr less ↦
        let (good, bad) = from_stage_fits t (rw e less) rest in
        let le : n ≤ m = ground (arith, less) in (λ h. good h.1, λ h. bad (λ below. h (le, below)))
  ]

add_counts_lem :
    (counts : Dict String ℕ) (names : List String) (t : FunnelTrace) (o : Option ℕ)
    → last_count t ≡ o
    → Builds
        (add_counts counts names t)
        (DescendsFrom o (numbers (given_counts counts names)))
        (t ++ count_stages (given_counts counts names))
unfolding add_counts given_counts
add_counts_lem counts [] t none e = (λ h. ap (λ u. some u) (sym (append-nil t)), λ h. absurd (h tt))
add_counts_lem counts [] t (some m) e =
    (λ h. ap (λ u. some u) (sym (append-nil t)), λ h. absurd (h tt))
add_counts_lem counts (name ∷ names) t o e = elim (Option-cases (lookup name counts)) [
  | inl missing ↦ rw (add_counts, given_counts, missing) (add_counts_lem counts names t o e)
  | inr (n, found) ↦
      rw (add_counts, given_counts, found)
        (from_stage_lem counts names name n t o e (
          add_counts_lem counts names (t ++ count_stage name n ∷ []) (some n)
            (last_count-snoc t (count_stage name n) n refl)))
]

-- With badges for all its assets, the funnel has one stage without a count for each of them and
-- then one stage for each name of the order that has a count, all in order, if no count is above
-- the one before it. Otherwise it raises.
pub compute_funnel_lem :
    (catalog : String → Option ScaleBadge) (badge : String → ScaleBadge) (counts : Dict String ℕ)
    (pb_tail_asset_ids : List String)
    → All (λ aid. catalog aid ≡ some (badge aid)) pb_tail_asset_ids
    → let given = given_counts counts funnel_order in
      (Descends (numbers given)
        → compute_funnel catalog counts pb_tail_asset_ids
          ≡ some (tail_stages badge pb_tail_asset_ids ++ count_stages given))
      × (¬ (Descends (numbers given)) → compute_funnel catalog counts pb_tail_asset_ids ≡ none)
unfolding compute_funnel
compute_funnel_lem catalog badge counts aids known = rw (add_tail_lem catalog badge aids [] known) (
    add_counts_lem counts funnel_order (tail_stages badge aids) none
      (last_count-tail_stages badge aids))
