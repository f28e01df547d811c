-- ===== src/Pipeline/Tests.antt =====
-- A query and a change of the pipeline.
use enterprise_rag_engine.Prelude.{
  ℕ, ◌+◌, String, ◌≡◌, refl, ap, true, false, Option, none, some, List, [], ◌∷◌, contains,
  if◌then◌else◌, string_eq, ◌⊎◌, inl, all, strip, lstrip, rstrip, flatten_lines,
}
use enterprise_rag_engine.Prelude.Dict.{lookup, insert}
use enterprise_rag_engine.Prelude.Decimal.{to_text, to_int}
use enterprise_rag_engine.Prelude.Fallible.{◌>>=◌}
use enterprise_rag_engine.Schemas.{Value, Values, nil, cons, ScoredChunk, RagResponse, is_public}
use enterprise_rag_engine.Governance.Access.{evaluate, evaluate_pii, evaluate_gates}
use enterprise_rag_engine.Governance.Filter.{apply, is_deny}
use enterprise_rag_engine.Governance.Filter.Conceals.{Secret}
use enterprise_rag_engine.Governance.Masking.{redact_chunk}
use enterprise_rag_engine.Governance.Citations.{citation_of, quote_of}
use enterprise_rag_engine.Cache.Key.{fingerprint}
use enterprise_rag_engine.Cache.Semantic.{
  Entry, Cache, key_of, scope_of, is_expired, scan, consider, get, conclude, regovern, same_set,
  serve,
}
use enterprise_rag_engine.Cdc.Events.{ChangeOp, ChunkChangeEvent, is_delete}
use enterprise_rag_engine.Cdc.Processor.{CdcState, Outcome, applied, is_stale}
use enterprise_rag_engine.Pipeline.{
  RagPipeline, govern_fn, by_id, stored_chunks, scored, warm_response, cold_response, look_up, cold,
  respond, retrieve_for_session, answer_of, query,
}
use enterprise_rag_engine.Pipeline.Fixtures.{
  digest, setup, customer, handbook, parts, agent, pipeline, clock,
}
use enterprise_rag_engine.Pipeline.Cases.{HasValidCache, IsRaised, IsCold, IsWarm}
use enterprise_rag_engine.Pipeline.Conceals.{varied, query-varied}
use enterprise_rag_engine.Pipeline.Counts.{HasColdCounts, HasWarmCounts, query-counts}
use enterprise_rag_engine.Pipeline.Hits.{Occurs, IsAdmitted, query-IsAdmitted, query_raw_citations}
use enterprise_rag_engine.Pipeline.Changes.{Pydantic, without, apply_change}
use enterprise_rag_engine.Pipeline.Changes.Propagates.{Changes, apply_change-Changes}
use enterprise_rag_engine.Pipeline.Changes.Deleted.{apply_change_deleted}

abbrev entry : Entry ℕ ℕ
entry = record {
  query_text = "refunds";
  query_vec = 7;
  scope_fp = digest;
  chunk_ids = "c1" ∷ "c2" ∷ [];
  answer = "within 30 days";
  created_at = 10;
  ttl_seconds = 60;
  n_withheld = 1;
}

abbrev cache : Cache ℕ ℕ
cache = record { entries = (key_of digest 1, entry) ∷ []; counter = 1; audit = [] }

cache_distinct : HasValidCache (some cache)
unfolding lookup
cache_distinct = (refl, tt)

query-IsAdmitted_example :
    IsRaised parts clock
      (pipeline (some cache))
      (query parts clock "refund" agent (pipeline (some cache)))
    ⊎ (IsCold parts clock "refund" agent
          (pipeline (some cache))
          (query parts clock "refund" agent (pipeline (some cache)))
        ⊎ ((hit : IsWarm parts clock "refund" agent
              (pipeline (some cache))
              (query parts clock "refund" agent (pipeline (some cache))))
            × ((id : String)
                → contains id hit.3.chunk_ids ≡ true
                → IsAdmitted (customer ∷ handbook ∷ []) agent id)))
query-IsAdmitted_example =
    query-IsAdmitted parts clock "refund" agent (pipeline (some cache)) cache_distinct

abbrev secret : ScoredChunk → Secret
secret sc = record { content = "card 0000"; anchor = ""; payload = [] }

query-varied_example :
    query (varied agent secret parts) clock "refund" agent (pipeline none)
    ≡ query parts clock "refund" agent (pipeline none)
query-varied_example = query-varied parts agent secret clock "refund" (pipeline none)

abbrev candidates : List ScoredChunk
candidates = scored customer ∷ scored handbook ∷ []

abbrev response : RagResponse
response =
    cold_response parts "refund" candidates (apply candidates agent).0 (apply candidates agent).1
      "within 30 days"

query_answers : (query parts clock "refund" agent (pipeline none)).0 ≡ some response
unfolding query look_up cold respond retrieve_for_session answer_of
query_answers = refl

query-counts_example :
    (response.retrieved ≡ response.admitted + response.blocked)
    × (HasColdCounts response ⊎ HasWarmCounts response)
query-counts_example =
    query-counts parts clock "refund" agent (pipeline none) response tt query_answers

governed_ids : govern_fn (customer ∷ handbook ∷ []) ("c1" ∷ "c2" ∷ []) agent ≡ "c1" ∷ "c2" ∷ []
unfolding govern_fn by_id stored_chunks insert lookup apply evaluate evaluate_pii evaluate_gates
    is_public redact_chunk is_deny contains
governed_ids = refl

warm_found :
    (lookup (key_of digest 1) cache.entries ≡ some entry)
    × (digest ≡ scope_of setup agent)
    × (is_expired setup 20 entry ≡ false)
    × (◌≡◌ {A = ℕ} 42 42)
unfolding lookup key_of scope_of fingerprint is_expired
warm_found = (refl, refl, refl, refl)

warm_served : query parts clock "refund" agent (pipeline (some cache)) ≡ (
  some (
      warm_response parts "refund" (customer ∷ handbook ∷ []) (record {
        answer = "within 30 days";
        chunk_ids = govern_fn (customer ∷ handbook ∷ []) ("c1" ∷ "c2" ∷ []) agent;
        similarity = 42;
        scope_fp = scope_of setup agent;
        n_withheld = 1;
      })),
  record (pipeline (some cache)) {
    cache =
        some
          (serve setup agent
            (scope_of setup agent)
            42
            (key_of digest 1)
            entry
            (govern_fn (customer ∷ handbook ∷ []) ("c1" ∷ "c2" ∷ []) agent)
            cache).1;
  },
)
unfolding query look_up get scan consider conclude regovern same_set is_expired scope_of fingerprint
    lookup contains all key_of to_text govern_fn by_id stored_chunks insert apply evaluate
    evaluate_pii evaluate_gates is_public redact_chunk is_deny serve
warm_served = refl

abbrev warm_hit :
    IsWarm parts clock "refund" agent
      (pipeline (some cache))
      (query parts clock "refund" agent (pipeline (some cache)))
warm_hit = (
  cache,
  42,
  key_of digest 1,
  entry,
  refl,
  warm_found,
  λ id. ap (contains id) governed_ids,
  warm_served,
)

query_raw_citations_example :
    (r : RagResponse) × ((query parts clock "refund" agent (pipeline (some cache))).0 ≡ some r)
    × Occurs (citation_of setup.sha256 240 (scored customer)) r.citations
query_raw_citations_example =
    query_raw_citations parts clock "refund" agent (pipeline (some cache)) warm_hit customer
      (inl refl) (unfold contains in refl)

abbrev event : ChangeOp → ChunkChangeEvent
event op = record {
  op = op;
  chunk_id = "c1";
  source_version = 3;
  payload = ("cls", Value.text "E") ∷ ("level", Value.int 4) ∷ [];
}

abbrev started : Option (Cache ℕ ℕ) → CdcState (RagPipeline ℕ ℕ)
started o = record { world = pipeline o; applied_version = ("c1", 2) ∷ []; notices = [] }

abbrev level_of : Value → Option ℕ
level_of (Value.int n) = some n
level_of (Value.boolean b) = some (if b then 1 else 0)
level_of (Value.text s) = to_int s
level_of _ = none

abbrev text_of : Value → Option String
text_of (Value.text s) = some s
text_of _ = none

abbrev texts_of : Values → Option (List String)
texts_of nil = some []
texts_of (cons v vs) = text_of v >>= λ s. texts_of vs >>= λ rest. some (s ∷ rest)

abbrev roles_of : Value → Option (List String)
roles_of (Value.array vs) = texts_of vs
roles_of _ = none

abbrev pydantic : Pydantic
pydantic = record { to_level = level_of; to_text = text_of; to_texts = roles_of }

apply_change-Changes_example :
    (r : Outcome) × (st' : CdcState (RagPipeline ℕ ℕ)) × (apply_change pydantic setup 2
        (event ChangeOp.reclassify)
        (started (some cache))
      ≡ some (r, st'))
    × Changes pydantic setup (event ChangeOp.reclassify) (started (some cache)) r st'
apply_change-Changes_example =
    apply_change-Changes pydantic setup 2 (event ChangeOp.reclassify) (started (some cache))

apply_change_deleted_example :
    (st' : CdcState (RagPipeline ℕ ℕ)) × (apply_change pydantic setup 2
        (event ChangeOp.delete)
        (started none)
      ≡ some (applied, st'))
    × (st'.world.chunks ≡ without "c1" (customer ∷ handbook ∷ []))
    × ((query parts clock "refund" agent st'.world).0
        ≡ (query parts clock "refund" agent (pipeline none)).0)
unfolding is_stale lookup is_delete
apply_change_deleted_example =
    apply_change_deleted pydantic parts clock "refund" agent 2 (event ChangeOp.delete)
      (started none) refl refl refl

-- The agent sees the customer's record masked, and its content in the citation.
raw_quote : (citation_of setup.sha256 240 (scored customer)).quote ≡ "card 4929"
unfolding citation_of quote_of strip lstrip rstrip flatten_lines
raw_quote = refl
