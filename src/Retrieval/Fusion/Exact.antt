-- ===== src/Retrieval/Fusion/Exact.antt =====
-- Fusion returns every chunk of the two lists once.
use mathlib.Core.Path.{subst}
use enterprise_rag_engine.Prelude.{
  ℕ, ◌+◌, String, ◌≡◌, refl, sym, ap, ◌∙◌, Bool, true, false, ◌||◌, Option, none, some, List, [],
  ◌∷◌, map, arith, ◌==◌, string_eq, beq_refl, contains, Bool-cases, some_inj, inl, inr, All,
}
use enterprise_rag_engine.Prelude.Dict.{Dict, lookup, insert}
use enterprise_rag_engine.Schemas.{Float, EnrichedChunk, ScoredChunk}
use enterprise_rag_engine.Schemas.Roles.{IsDistinct}
use enterprise_rag_engine.Retrieval.Fusion.Keys.{
  keys, add_key, contains-add_key, add_key-IsDistinct, keys-insert, add_key_old, lookup_known,
}
use enterprise_rag_engine.Retrieval.Fusion.Sorted.{sort_by_score-All, sort_by_score_lem}
use enterprise_rag_engine.Retrieval.Fusion.{
  Arithmetic, Which, Fusion, set_rank, cid_of, or_unranked, fused_at, add_one, add, set_scores,
  sort_by_score, reciprocal_rank_fusion,
}

-- The keys that a list of chunks adds
add_keys : List ScoredChunk → List String → List String
add_keys [] ks = ks
add_keys (sc ∷ rest) ks = add_keys rest (add_key (cid_of sc) ks)

module _ (math : Arithmetic) (P : EnrichedChunk → Type 0) where
  -- Every chunk stands under its own id, and has the property.
  abbrev AreOwn : Dict String ScoredChunk → Type 0
  AreOwn d = All (λ e. (cid_of e.1 ≡ e.0) × P e.1.chunk) d

  insert-AreOwn :
      (k : String) (v : ScoredChunk) (d : Dict String ScoredChunk)
      → (cid_of v ≡ k) × P v.chunk
      → AreOwn d
      → AreOwn (insert k v d)
  unfolding insert
  insert-AreOwn k v [] own h = (own, tt)
  insert-AreOwn k v ((j, w) ∷ d) own (first, h) = elim (Bool-cases (j == k)) [
    | inl same ↦ rw same (own, h)
    | inr other ↦ rw other (first, insert-AreOwn k v d own h)
  ]

  lookup-AreOwn :
      (k : String) (v : ScoredChunk) (d : Dict String ScoredChunk)
      → AreOwn d
      → lookup k d ≡ some v
      → (cid_of v ≡ k) × P v.chunk
  unfolding lookup
  lookup-AreOwn k v [] h e = cc e
  lookup-AreOwn k v ((j, w) ∷ d) (first, h) e = elim (Bool-cases (j == k)) [
    | inl same ↦
        subst (λ x. (cid_of x ≡ k) × P x.chunk) (some_inj (rw same at e))
          (subst (λ i. (cid_of w ≡ i) × P w.chunk) ((string_eq.beq_iff j k).0 same) first)
    | inr other ↦ lookup-AreOwn k v d h (rw other at e)
  ]

  values-AreOwn :
      (d : Dict String ScoredChunk)
      → AreOwn d
      → (map cid_of (map (λ e. e.1) d) ≡ keys d) × All (λ sc. P sc.chunk) (map (λ e. e.1) d)
  values-AreOwn [] h = (refl, tt)
  values-AreOwn ((k, v) ∷ d) ((own, holds), h) =
      let (e, later) = values-AreOwn d h in (rw (own, e), (holds, later))

  -- What `add` keeps true of the two dictionaries
  abbrev IsFusion : Fusion → Type 0
  IsFusion st = (keys st.fused ≡ keys st.contrib) × AreOwn st.fused × IsDistinct (keys st.fused)

  set_rank_keeps :
      (which : Which) (rank : ℕ) (sc : ScoredChunk) → (set_rank which rank sc).chunk ≡ sc.chunk
  unfolding set_rank
  set_rank_keeps Which.lex rank sc = refl
  set_rank_keeps Which.dense rank sc = refl

  fused_at-IsOwn :
      (d : Dict String ScoredChunk) (c : EnrichedChunk)
      → AreOwn d
      → P c
      → (cid_of (fused_at math d c) ≡ c.chunk_id) × P (fused_at math d c).chunk
  fused_at-IsOwn d c own holds = go (lookup c.chunk_id d) refl
    where
      go :
          (o : Option ScoredChunk)
          → lookup c.chunk_id d ≡ o
          → (cid_of (or_unranked math c o) ≡ c.chunk_id) × P (or_unranked math c o).chunk
      go none e = (refl, holds)
      go (some v) e = lookup-AreOwn c.chunk_id v d own e

  add_one-IsFusion :
      (k : ℕ) (which : Which) (rank : ℕ) (sc : ScoredChunk) (st : Fusion)
      → P sc.chunk
      → IsFusion st
      → IsFusion (add_one math k which rank sc st)
        × (keys (add_one math k which rank sc st).fused ≡ add_key (cid_of sc) (keys st.fused))
  unfolding add_one
  add_one-IsFusion k which rank sc st holds (same, own, distinct) =
      let grown =
        keys-insert (cid_of sc) (set_rank which rank (fused_at math st.fused sc.chunk)) st.fused in
      (
        (
          grown ∙ ap (add_key (cid_of sc)) same ∙ sym (keys-insert (cid_of sc) _ st.contrib),
          insert-AreOwn (cid_of sc) _ st.fused
              (subst (λ c. (c.chunk_id ≡ cid_of sc) × P c)
                (sym (set_rank_keeps which rank (fused_at math st.fused sc.chunk)))
                (fused_at-IsOwn st.fused sc.chunk own holds))
              own,
          rw grown (add_key-IsDistinct (cid_of sc) (keys st.fused) distinct),
        ),
        grown,
      )

  add-IsFusion :
      (k : ℕ) (which : Which) (rank : ℕ) (cs : List ScoredChunk) (st : Fusion)
      → All (λ sc. P sc.chunk) cs
      → IsFusion st
      → IsFusion (add math k which rank cs st)
        × (keys (add math k which rank cs st).fused ≡ add_keys cs (keys st.fused))
  unfolding add add_keys
  add-IsFusion k which rank [] st all h = (h, refl)
  add-IsFusion k which rank (sc ∷ rest) st (holds, all) h =
      let (h', e) = add_one-IsFusion k which rank sc st holds h in
      let (h'', e') = add-IsFusion k which (rank + 1) rest _ all h' in
      (h'', e' ∙ ap (add_keys rest) e)

  set_scores-AreOwn :
      (contrib : Dict String Float) (fused : Dict String ScoredChunk)
      → ((k : String) → contains k (keys contrib) ≡ true → contains k (keys fused) ≡ true)
      → AreOwn fused
      → (d : Dict String ScoredChunk) × (set_scores math contrib fused ≡ some d)
        × AreOwn d
        × (keys d ≡ keys fused)
  unfolding set_scores contains
  set_scores-AreOwn [] fused known own = (fused, refl, own, refl)
  set_scores-AreOwn ((cid, score) ∷ rest) fused known own =
      let here : contains cid (keys fused) ≡ true = known cid (ground (arith, beq_refl cid)) in
      let (sc, found) = lookup_known cid fused here in
      let kept : keys (insert cid (record sc { score = score }) fused) ≡ keys fused =
        keys-insert cid (record sc { score = score }) fused ∙ add_key_old cid (keys fused) here in
      let (d, e, own', e') =
        set_scores-AreOwn rest (insert cid (record sc { score = score }) fused)
          (λ k h. rw kept (known k (ground (arith, h))))
          (insert-AreOwn cid _ fused (lookup-AreOwn cid sc fused own found) own) in
      (d, rw (set_scores, found) e, own', e' ∙ kept)

contains-add_keys :
    (id : String) (cs : List ScoredChunk) (ks : List String)
    → contains id (add_keys cs ks) ≡ (contains id (map cid_of cs) || contains id ks)
unfolding add_keys contains
contains-add_keys id [] ks = refl
contains-add_keys id (c ∷ cs) ks =
    ground
      (arith, contains-add_keys id cs (add_key (cid_of c) ks), contains-add_key id (cid_of c) ks)

either_of : (a b d : Bool) → a ≡ (b || false) → (d || a) ≡ (b || d)
either_of a b d h = ground (arith, h)

-- Fusion always has a result. No id occurs twice in it, an id occurs in it if and only if it occurs
-- in one of the two lists, and whatever holds of all their chunks holds of those of the result.
pub reciprocal_rank_fusion_lem :
    (math : Arithmetic) (P : EnrichedChunk → Type 0) (lexical dense : List ScoredChunk) (k : ℕ)
    → All (λ sc. P sc.chunk) lexical
    → All (λ sc. P sc.chunk) dense
    → (out : List ScoredChunk) × (reciprocal_rank_fusion math lexical dense k ≡ some out)
      × IsDistinct (map cid_of out)
      × ((id : String)
          → contains id (map cid_of out)
            ≡ (contains id (map cid_of lexical) || contains id (map cid_of dense)))
      × All (λ sc. P sc.chunk) out
unfolding reciprocal_rank_fusion contains
reciprocal_rank_fusion_lem math P lexical dense k holds holds' =
    let start : Fusion = record { fused = []; contrib = [] } in
    let (h, e) = add-IsFusion math P k Which.lex 1 lexical start holds (refl, tt, tt) in
    let ((same, own, distinct), e') = add-IsFusion math P k Which.dense 1 dense _ holds' h in
    let st = add math k Which.dense 1 dense (add math k Which.lex 1 lexical start) in
    let (d, scored, own', kept) =
      set_scores-AreOwn math P st.contrib st.fused (λ i h. rw same h) own in
    let (ids, all) = values-AreOwn math P d own' in
    let (found, once) = sort_by_score_lem math (map (λ e. e.1) d) in
    (
      sort_by_score math (map (λ e. e.1) d),
      rw (reciprocal_rank_fusion, scored) refl,
      once (rw (ids, kept) distinct),
      λ id.
          found id
          ∙ ap (contains id) (ids ∙ kept ∙ e' ∙ ap (add_keys dense) e)
          ∙ contains-add_keys id dense (add_keys lexical [])
          ∙ either_of _ (contains id (map cid_of lexical)) (contains id (map cid_of dense))
              (contains-add_keys id lexical []),
      sort_by_score-All math P _ all,
    )
