-- ===== src/Selfrag/Tests.antt =====
-- A run that is grounded on its second iteration, over one chunk with withheld content.
use enterprise_rag_engine.Prelude.{◌≡◌, true, none, some, [], ◌∷◌, string_eq, leb}
use enterprise_rag_engine.Schemas.{bits, Session, ScoredChunk}
use enterprise_rag_engine.Governance.Filter.Conceals.{Secret}
use enterprise_rag_engine.Selfrag.Loop.{Services, run}
use enterprise_rag_engine.Selfrag.Loop.Outcome.{RaisesOrIsSound, run_sound}
use enterprise_rag_engine.Selfrag.Loop.Conceals.{varied, run-varied}

abbrev customer : ScoredChunk
customer = record {
  chunk = record {
    chunk_id = "c1";
    parent_doc_id = "doc";
    parent_title = "Document";
    content = "jane@example.com";
    contextual_anchor = "";
    security = record {
      allowed_roles = [];
      clearance_level = 2;
      owner_department = "ops";
      sensitivity_class = "D";
      need_to_know_roles = [];
    };
    ordinal = 0;
    modality = "text";
    metadata = record { partial_for = none; others = [] };
  };
  score = bits 0;
  lexical_rank = none;
  dense_rank = none;
}

abbrev services : Services
services = record {
  retrieve = λ i query s. some (customer ∷ []);
  generate = λ i query chunks. some "an answer";
  grade_relevance = λ i query chunks. some (record { sufficient = leb 2 i; score = bits 1 });
  grade_groundedness = λ i query answer chunks. some (record { grounded = true; score = bits 1 });
  reformulate = λ query i. query;
}

abbrev agent : Session
agent = record { user_id = "u"; roles = []; clearance_level = 2 }

run_sound_example : RaisesOrIsSound services agent 3 (run services 3 "who is the customer" agent)
run_sound_example = run_sound services agent 3 "who is the customer"

abbrev another : ScoredChunk → Secret
another sc = record { content = "joe@example.com"; anchor = ""; payload = [] }

run-varied_example :
    run (varied another services) 3 "who is the customer" agent
    ≡ run services 3 "who is the customer" agent
run-varied_example = run-varied services another 3 "who is the customer" agent
