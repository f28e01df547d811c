-- ===== src/Pipeline/Fixtures.antt =====
-- A pipeline with a customer record and a handbook, and an agent who sees customer data masked.
use Prim.Native.String.{count}
use enterprise_rag_engine.Prelude.{
  ℕ, ◌*◌, ◌-◌, String, false, Option, none, some, [], ◌∷◌, ltb, map,
}
use enterprise_rag_engine.Schemas.{EnrichedChunk, Session, RagArchitecture}
use enterprise_rag_engine.Cache.Semantic.{Setup, Cache}
use enterprise_rag_engine.Pipeline.{Parts, RagPipeline, Clock, scored}

abbrev pub digest : String
digest = "0123456789abcdef0123456789abcdef0123456789abcdef0123456789abcdef"

abbrev pub setup : Setup ℕ ℕ
setup = record {
  gt = λ a b. ltb b a;
  lt = λ a b. ltb a b;
  minus = λ a b. a - b;
  minus_one = 0;
  dot = λ a b. a * b;
  embed = λ question. count question;
  sha256 = λ s. digest;
  similarity_threshold = 4;
  ttl_seconds = 60;
  max_entries = 2;
}

abbrev pub chunk : String → String → ℕ → String → EnrichedChunk
chunk id cls level content = record {
  chunk_id = id;
  parent_doc_id = "doc";
  parent_title = "Document";
  content = content;
  contextual_anchor = "";
  security = record {
    allowed_roles = [];
    clearance_level = level;
    owner_department = "ops";
    sensitivity_class = cls;
    need_to_know_roles = [];
  };
  ordinal = 0;
  modality = "text";
  metadata = record { partial_for = none; others = [] };
}

abbrev pub customer : EnrichedChunk
customer = chunk "c1" "D" 2 "card 4929"

abbrev pub handbook : EnrichedChunk
handbook = chunk "c2" "B" 1 "returns within 30 days"

abbrev pub parts : Parts ℕ ℕ
parts = record {
  route = λ q. RagArchitecture.advanced_hybrid;
  vector_retriever = none;
  retrieve = λ chunks q. some (map scored chunks);
  generate = λ i q cs. some "within 30 days";
  grade_relevance = λ i q cs. none;
  grade_groundedness = λ i q a cs. none;
  reformulate = λ q i. q;
  setup = setup;
  max_quote_chars = 240;
  selfrag_enabled = false;
  selfrag_max_iterations = 3;
}

abbrev pub agent : Session
agent = record { user_id = "u"; roles = "SUPPORT" ∷ []; clearance_level = 2 }

abbrev pub pipeline : Option (Cache ℕ ℕ) → RagPipeline ℕ ℕ
pipeline o = record {
  chunks = customer ∷ handbook ∷ [];
  indexed = some (customer ∷ handbook ∷ []);
  cache = o;
  audit = [];
}

abbrev pub clock : Clock ℕ
clock = record { looked_up = 20; created = 21; evicted = 22 }
