-- ===== src/Retrieval/Tests.antt =====
-- The vector path over two chunks, one of which the session is denied.
use enterprise_rag_engine.Prelude.{
  true, ℕ, ◌+◌, ◌/◌, String, ◌≡◌, refl, map, ◌||◌, ltb, ap, ◌∙◌, Bool, false, Option, none, some,
  List, [], ◌∷◌, ◌==◌, string_eq, nat_eq, contains, keep, keep-All, All, if◌then◌else◌, arith, take,
  All-take,
}
use enterprise_rag_engine.Prelude.Dict.{lookup, insert}
use enterprise_rag_engine.Schemas.{
  Float, bits, SecurityContext, EnrichedChunk, ScoredChunk, Session,
}
use enterprise_rag_engine.Schemas.Roles.{IsDistinct}
use enterprise_rag_engine.Governance.Access.{evaluate, partial_roles}
use enterprise_rag_engine.Governance.Filter.{is_deny}
use enterprise_rag_engine.Governance.Rebac.{Facts, facts_of}
use enterprise_rag_engine.Governance.Rebac.Parity.{IsGoverned, Holds}
use enterprise_rag_engine.Retrieval.ModeRouter.{Backend, route_query}
use enterprise_rag_engine.Retrieval.ModeRouter.Readable.{
  IsRestricted, IsReadable, route_query-IsReadable,
}
use enterprise_rag_engine.Retrieval.Fusion.{
  Arithmetic, cid_of, set_rank, add_one, add, set_scores, place, sort_by_score,
  reciprocal_rank_fusion,
}
use enterprise_rag_engine.Retrieval.Fusion.Exact.{reciprocal_rank_fusion_lem}
use enterprise_rag_engine.Retrieval.IdMap.{IdTable, empty_map, to_u64}
use enterprise_rag_engine.Retrieval.IdMap.Bijection.{
  IsBijection, Assigns, empty_map-IsBijection, to_u64-Assigns,
}
use enterprise_rag_engine.Retrieval.TurboVec.{AnnSearch, Parts, retrieve_for_session}
use enterprise_rag_engine.Retrieval.TurboVec.Admitted.{
  IsFiltered, Picks, IsConsistent, retrieve_for_session_lem,
}

to_u64-Assigns_example : Assigns "c1" empty_map (to_u64 "c1" empty_map)
to_u64-Assigns_example = to_u64-Assigns "c1" empty_map empty_map-IsBijection

abbrev numbers : IdTable
numbers = record { fwd = ("c1", 1) ∷ ("c2", 2) ∷ []; rev = (1, "c1") ∷ (2, "c2") ∷ []; next = 3 }

abbrev one_number : IdTable
one_number = record { fwd = ("c1", 1) ∷ []; rev = (1, "c1") ∷ []; next = 2 }

first_number : Assigns "c1" empty_map (some (1, one_number))
unfolding to_u64 empty_map lookup insert
first_number = to_u64-Assigns "c1" empty_map empty_map-IsBijection

second_number : Assigns "c2" one_number (some (2, numbers))
unfolding to_u64 lookup insert
second_number = to_u64-Assigns "c2" one_number first_number.0

numbers-IsBijection : IsBijection numbers
numbers-IsBijection = second_number.0

abbrev chunk : String → ℕ → EnrichedChunk
chunk id level = record {
  chunk_id = id;
  parent_doc_id = "doc";
  parent_title = "Document";
  content = "the content";
  contextual_anchor = "";
  security = record {
    allowed_roles = [];
    clearance_level = level;
    owner_department = "ops";
    sensitivity_class = "C";
    need_to_know_roles = [];
  };
  ordinal = 0;
  modality = "text";
  metadata = record { partial_for = none; others = [] };
}

abbrev everything : List (Float × ℕ)
everything = (bits 2, 2) ∷ (bits 1, 1) ∷ []

abbrev allows : List ℕ → Float × ℕ → Bool
allows allow x = contains x.1 allow

-- An index whose order is fixed
abbrev ann : AnnSearch String
ann q k none = everything
ann q k (some allow) = keep (allows allow) everything

abbrev get_chunk : String → Option EnrichedChunk
get_chunk id =
    if id == "c1" then some (chunk "c1" 2) else if id == "c2" then some (chunk "c2" 4) else none

abbrev parts : Parts String
parts = record {
  ann = ann;
  id_map = numbers;
  embed = λ q. q;
  get_chunk = get_chunk;
  all_chunk_security = chunk "c1" 2 ∷ chunk "c2" 4 ∷ [];
  rerank = λ q cs k. take k cs;
  vector_coarse_k = 10;
  final_top_k = 5;
}

ann-IsFiltered : IsFiltered ann
ann-IsFiltered q k allow = keep-All (allows allow) everything

take-Picks : Picks (λ q cs k. take k cs)
take-Picks P q cs k h = All-take (λ sc. P sc.chunk) k cs h

abbrev access_of : Option EnrichedChunk → Option (SecurityContext × List String)
access_of none = none
access_of (some c) = some (c.security, partial_roles c.metadata)

same_access :
    (c listed : EnrichedChunk)
    → some listed ≡ some c
    → (listed.security ≡ c.security) × (partial_roles listed.metadata ≡ partial_roles c.metadata)
same_access c listed same = (ground (arith, same), ground (arith, ap access_of same))

parts-IsConsistent : IsConsistent parts
parts-IsConsistent id c got = (
  λ e. same_access c (chunk "c1" 2) (ap get_chunk e ∙ got),
  (λ e. same_access c (chunk "c2" 4) (ap get_chunk e ∙ got), tt),
)

abbrev clerk : Session
clerk = record { user_id = "u"; roles = []; clearance_level = 2 }

retrieve_for_session_lem_example :
    All
      (λ sc. is_deny (evaluate sc.chunk clerk).decision ≡ false)
      (retrieve_for_session parts "rules" clerk)
retrieve_for_session_lem_example =
    retrieve_for_session_lem parts "rules" clerk numbers-IsBijection ann-IsFiltered take-Picks
      parts-IsConsistent

-- A store of which every row is the id of a chunk, and which takes an empty allowlist for no
-- restriction
abbrev neighbours : String → List String → List String
neighbours arg [] = "c1" ∷ "c2" ∷ []
neighbours arg (id ∷ ids) = keep (λ r. contains r (id ∷ ids)) ("c1" ∷ "c2" ∷ [])

neighbours-IsRestricted : IsRestricted (λ r. r) neighbours
neighbours-IsRestricted arg id ids = keep-All (λ r. contains r (id ∷ ids)) ("c1" ∷ "c2" ∷ [])

abbrev listed : List EnrichedChunk
listed = chunk "c1" 1 ∷ chunk "c2" 4 ∷ []

abbrev view : String → Facts
view id = facts_of (if id == "c1" then chunk "c1" 1 else chunk "c2" 4)

listed-IsGoverned : All (λ c. IsGoverned c clerk × (facts_of c ≡ view c.chunk_id)) listed
unfolding contains
listed-IsGoverned = (
  (record { level = omega arith; recognised = refl }, refl),
  ((record { level = omega arith; recognised = refl }, refl), tt),
)

no_facts_yet : Holds view []
unfolding lookup
no_facts_yet k f h = ground (arith, h)

route_query-IsReadable_example :
    (rows : List String) × ((route_query neighbours "c1" clerk listed (Backend.local_rebac [])).1
      ≡ some rows)
    × All (λ r. IsReadable clerk listed r) rows
    × (All (λ c. is_deny (evaluate c clerk).decision ≡ true) listed → rows ≡ [])
route_query-IsReadable_example =
    route_query-IsReadable (λ r. r) neighbours "c1" view clerk listed [] neighbours-IsRestricted
      listed-IsGoverned no_facts_yet

abbrev number_of : Float → ℕ
number_of (bits n) = n

abbrev math : Arithmetic
math = record {
  zero = bits 0;
  plus = λ a b. bits (number_of a + number_of b);
  share = λ k rank. bits (600 / (k + rank));
  gt = λ a b. ltb (number_of b) (number_of a);
}

abbrev hit : String → ScoredChunk
hit id = record { chunk = chunk id 1; score = bits 0; lexical_rank = none; dense_rank = none }

abbrev fused_hit : String → ℕ → Option ℕ → Option ℕ → ScoredChunk
fused_hit id score lexical dense = record {
  chunk = chunk id 1;
  score = bits score;
  lexical_rank = lexical;
  dense_rank = dense;
}

-- The chunk that both lists have comes first, with both ranks.
hits_fused :
    reciprocal_rank_fusion math (hit "c1" ∷ hit "c2" ∷ []) (hit "c2" ∷ []) 60
    ≡ some (fused_hit "c2" 18 (some 2) (some 1) ∷ fused_hit "c1" 9 (some 1) none ∷ [])
unfolding reciprocal_rank_fusion add add_one set_rank set_scores sort_by_score place lookup insert
hits_fused = refl

abbrev IsText : EnrichedChunk → Type 0
IsText c = c.modality ≡ "text"

reciprocal_rank_fusion_lem_example :
    (out : List ScoredChunk) × (reciprocal_rank_fusion math
        (hit "c1" ∷ hit "c2" ∷ [])
        (hit "c2" ∷ [])
        60
      ≡ some out)
    × IsDistinct (map cid_of out)
    × ((id : String)
        → contains id (map cid_of out)
          ≡ (contains id ("c1" ∷ "c2" ∷ []) || contains id ("c2" ∷ [])))
    × All (λ sc. IsText sc.chunk) out
reciprocal_rank_fusion_lem_example =
    reciprocal_rank_fusion_lem math IsText (hit "c1" ∷ hit "c2" ∷ []) (hit "c2" ∷ []) 60
      (refl, (refl, tt)) (refl, tt)
