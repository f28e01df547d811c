-- ===== src/Cache/Tests.antt =====
-- The cache with vectors of one number, whose similarity is their product.
use Prim.Native.String.{count}
use enterprise_rag_engine.Prelude.{
  ℕ, ◌≤◌, ◌*◌, ◌-◌, String, ◌≡◌, refl, true, not, Option, none, some, List, [], ◌∷◌, ltb, length,
  All, string_eq, ◌⊎◌,
}
use enterprise_rag_engine.Prelude.Dict.{lookup}
use enterprise_rag_engine.Prelude.Decimal.{to_text}
use enterprise_rag_engine.Prelude.Sets.{sorted_set}
use enterprise_rag_engine.Schemas.{EnrichedChunk, Session}
use enterprise_rag_engine.Governance.Access.{evaluate}
use enterprise_rag_engine.Cache.Key.{from_session}
use enterprise_rag_engine.Cache.Key.Scope.{evaluate-from_session}
use enterprise_rag_engine.Cache.Semantic.{Setup, Entry, Cache, key_of, is_expired, get, put}
use enterprise_rag_engine.Prelude.DistinctKeys.{HasDistinctKeys}
use enterprise_rag_engine.Cache.Semantic.Hits.{IsHit, get_lem}
use enterprise_rag_engine.Cache.Semantic.Bounded.{put_lem}

abbrev digest : String
digest = "0123456789abcdef0123456789abcdef0123456789abcdef0123456789abcdef"

abbrev setup : Setup ℕ ℕ
setup = record {
  gt = λ a b. ltb b a;
  lt = λ a b. ltb a b;
  minus = λ a b. a - b;
  minus_one = 0;
  dot = λ a b. a * b;
  embed = λ query. count query;
  sha256 = λ s. digest;
  similarity_threshold = 4;
  ttl_seconds = 60;
  max_entries = 2;
}

abbrev session : List String → Session
session roles = record { user_id = "u"; roles = roles; clearance_level = 2 }

abbrev entry : List String → Entry ℕ ℕ
entry ids = record {
  query_text = "refunds";
  query_vec = 7;
  scope_fp = digest;
  chunk_ids = ids;
  answer = "within 30 days";
  created_at = 10;
  ttl_seconds = 60;
  n_withheld = 1;
}

abbrev cache : Cache ℕ ℕ
cache = record {
  entries = (key_of digest 1, entry ("c1" ∷ "c2" ∷ [])) ∷ (key_of digest 2, entry ("c3" ∷ [])) ∷ [];
  counter = 2;
  audit = [];
}

cache_distinct : HasDistinctKeys cache.entries
unfolding lookup key_of to_text
cache_distinct = (refl, (refl, tt))

abbrev govern_all : List String → Session → Option (List String)
govern_all ids s = some ids

get_lem_example :
    (get setup govern_all 20 "refund" (session []) cache ≡ some (none, cache))
    ⊎ IsHit setup govern_all 20 "refund"
        (session [])
        cache
        (get setup govern_all 20 "refund" (session []) cache)
get_lem_example = get_lem setup govern_all 20 "refund" (session []) cache cache_distinct

put_lem_example :
    (length (put setup 30 31 "returns" (session []) ("c4" ∷ []) "no" 0 cache).entries ≤ 2)
    × All
        (λ x. not (is_expired setup 31 x.1) ≡ true)
        (put setup 30 31 "returns" (session []) ("c4" ∷ []) "no" 0 cache).entries
    × HasDistinctKeys (put setup 30 31 "returns" (session []) ("c4" ∷ []) "no" 0 cache).entries
put_lem_example = put_lem setup 30 31 "returns" (session []) ("c4" ∷ []) "no" 0 cache cache_distinct

abbrev chunk : EnrichedChunk
chunk = record {
  chunk_id = "c1";
  parent_doc_id = "doc";
  parent_title = "Document";
  content = "the content";
  contextual_anchor = "";
  security = record {
    allowed_roles = [];
    clearance_level = 2;
    owner_department = "ops";
    sensitivity_class = "G";
    need_to_know_roles = "HR" ∷ [];
  };
  ordinal = 0;
  modality = "text";
  metadata = record { partial_for = none; others = [] };
}

evaluate-from_session_example :
    (evaluate chunk (session ("HR" ∷ "OPS" ∷ []))).decision
    ≡ (evaluate chunk (session ("OPS" ∷ "HR" ∷ "OPS" ∷ []))).decision
unfolding from_session sorted_set
evaluate-from_session_example =
    evaluate-from_session chunk (session ("HR" ∷ "OPS" ∷ [])) (session ("OPS" ∷ "HR" ∷ "OPS" ∷ []))
      refl
