-- ===== src/Funnel/Tests.antt =====
-- A funnel with a stated scale at its head.
use enterprise_rag_engine.Prelude.{
  ◌++◌, ℕ, String, ◌≡◌, refl, Option, none, some, [], ◌∷◌, string_eq, is_some, false,
}
use enterprise_rag_engine.Prelude.Dict.{Dict, lookup}
use enterprise_rag_engine.Funnel.{
  ScaleBadge, funnel_order, compute_funnel, stage, grows, last_count, add_tail, add_counts,
}
use enterprise_rag_engine.Funnel.Reduces.{
  Descends, given_counts, numbers, count_stages, tail_stages, compute_funnel_lem,
}

abbrev catalog : String → Option ScaleBadge
catalog aid = some (record { scale_badge = "2.1 PB"; provenance_url = "https://example.org" })

abbrev counts : Dict String ℕ
counts = ("rerank", 8) ∷ ("coarse_ann", 200) ∷ []

abbrev badge : String → ScaleBadge
badge aid = record { scale_badge = "2.1 PB"; provenance_url = "https://example.org" }

compute_funnel_lem_example :
    (Descends (numbers (given_counts counts funnel_order))
      → compute_funnel catalog counts ("events" ∷ [])
        ≡ some
            (tail_stages badge ("events" ∷ []) ++ count_stages (given_counts counts funnel_order)))
    × (¬ (Descends (numbers (given_counts counts funnel_order)))
        → compute_funnel catalog counts ("events" ∷ []) ≡ none)
compute_funnel_lem_example = compute_funnel_lem catalog badge counts ("events" ∷ []) (refl, tt)

counts_given : given_counts counts funnel_order ≡ ("coarse_ann", 200) ∷ ("rerank", 8) ∷ []
unfolding given_counts lookup
counts_given = refl

grown_refused :
    is_some (compute_funnel catalog (("rerank", 8) ∷ ("final_top_k", 9) ∷ []) []) ≡ false
unfolding compute_funnel add_tail add_counts stage grows last_count lookup
grown_refused = refl
