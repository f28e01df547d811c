-- ===== src/Retrieval/Fusion.antt =====
-- src/rag_engine/retrieval/fusion.py: reciprocal rank fusion. The arithmetic of the scores is a
-- parameter; `sorted` is stable.
pub mod Exact
pub mod Keys
pub mod Sorted
use enterprise_rag_engine.Prelude.{
  ℕ, ◌+◌, String, Bool, Option, none, some, List, [], ◌∷◌, map, string_eq, if◌then◌else◌,
}
use enterprise_rag_engine.Prelude.Dict.{Dict, lookup, insert}
use enterprise_rag_engine.Prelude.Fallible.{◌>>=◌}
use enterprise_rag_engine.Schemas.{Float, EnrichedChunk, ScoredChunk}

-- `0.0`, the sum of two scores, `1.0 / (k + rank)` and the order
pub record Arithmetic : Type 0 where
  pub zero : Float
  pub plus : Float → Float → Float
  pub share : ℕ → ℕ → Float
  pub gt : Float → Float → Bool

pub data Which : Type 0 where
  lex dense : Which

-- The two dictionaries of `reciprocal_rank_fusion`
pub record Fusion : Type 0 where
  pub fused : Dict String ScoredChunk
  pub contrib : Dict String Float

unfoldable pub set_rank : Which → ℕ → ScoredChunk → ScoredChunk
set_rank Which.lex rank sc = record sc { lexical_rank = some rank }
set_rank Which.dense rank sc = record sc { dense_rank = some rank }

abbrev pub cid_of : ScoredChunk → String
cid_of sc = sc.chunk.chunk_id

module _ (math : Arithmetic) where
  abbrev pub unranked : EnrichedChunk → ScoredChunk
  unranked c = record { chunk = c; score = math.zero; lexical_rank = none; dense_rank = none }

  abbrev pub or_unranked : EnrichedChunk → Option ScoredChunk → ScoredChunk
  or_unranked c none = unranked c
  or_unranked c (some old) = old

  -- `fused[cid]`, after it is set if it was not there
  abbrev pub fused_at : Dict String ScoredChunk → EnrichedChunk → ScoredChunk
  fused_at fused c = or_unranked c (lookup c.chunk_id fused)

  -- `contrib.get(cid, 0.0)`
  abbrev pub contrib_at : Dict String Float → String → Float
  contrib_at contrib cid = elim (lookup cid contrib) [ none ↦ math.zero | some x ↦ x ]

  -- A round of `add`
  unfoldable pub add_one : ℕ → Which → ℕ → ScoredChunk → Fusion → Fusion
  unfolding set_rank
  add_one k which rank sc st =
      let cid = sc.chunk.chunk_id in
      record {
        fused = insert cid (set_rank which rank (fused_at st.fused sc.chunk)) st.fused;
        contrib = insert cid (math.plus (contrib_at st.contrib cid) (math.share k rank)) st.contrib;
      }

  -- `add`, from a rank on
  unfoldable pub add : ℕ → Which → ℕ → List ScoredChunk → Fusion → Fusion
  unfolding add_one
  add k which rank [] st = st
  add k which rank (sc ∷ rest) st = add k which (rank + 1) rest (add_one k which rank sc st)

  -- The loop over `contrib.items()`; `none` is a KeyError.
  unfoldable pub set_scores :
      Dict String Float → Dict String ScoredChunk → Option (Dict String ScoredChunk)
  set_scores [] fused = some fused
  set_scores ((cid, score) ∷ rest) fused =
      lookup cid fused >>= λ sc. set_scores rest (insert cid (record sc { score = score }) fused)

  -- `sorted(..., key=lambda s: -s.score)`
  unfoldable pub place : ScoredChunk → List ScoredChunk → List ScoredChunk
  place x [] = x ∷ []
  place x (y ∷ ys) =
      let rest = place x ys in if math.gt y.score x.score then y ∷ rest else x ∷ y ∷ ys

  unfoldable pub sort_by_score : List ScoredChunk → List ScoredChunk
  unfolding place
  sort_by_score [] = []
  sort_by_score (x ∷ xs) = place x (sort_by_score xs)

  -- `reciprocal_rank_fusion`
  unfoldable pub reciprocal_rank_fusion :
      List ScoredChunk → List ScoredChunk → ℕ → Option (List ScoredChunk)
  unfolding add set_scores sort_by_score
  reciprocal_rank_fusion lexical_hits dense_hits k =
      let st =
        add k Which.dense 1 dense_hits
          (add k Which.lex 1 lexical_hits (record { fused = []; contrib = [] })) in
      set_scores st.contrib st.fused >>= λ fused.
      some (sort_by_score (map (λ (e : String × ScoredChunk). e.1) fused))
