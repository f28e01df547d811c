-- ===== src/Trace/Stages.antt =====
-- src/rag_engine/trace.py: the stages of a trace, from the spans that the collector of
-- src/rag_engine/observability/tracer.py holds.
use Prim.Native.String.{◌++◌ as concat, count}
use enterprise_rag_engine.Prelude.{
  ℕ, ◌+◌, String, Bool, true, false, ◌||◌, Option, none, some, List, [], ◌∷◌, string_eq, ◌==◌, ltb,
  if◌then◌else◌, length, keep, count_if,
}
use enterprise_rag_engine.Prelude.Decimal.{to_text}
use enterprise_rag_engine.Schemas.{
  Float, ScoredChunk, Decision, GovernanceDecision, RagArchitecture,
}
use enterprise_rag_engine.Governance.Filter.{is_deny}
use enterprise_rag_engine.Trace.Gates.{reason_text, gate_fired_for}

-- A finished span, with the two attributes that a trace reads
pub record Span : Type 0 where
  pub name : String
  pub request_id : String
  pub iteration : Option ℕ
  pub action : Option String
  pub duration_s : Float

-- What a trace uses of Python's numbers and texts: `max(int(x * 1000), 0)`, `round(x, 4)` and `repr`
pub record Formats : Type 0 where
  pub to_ms : Float → ℕ
  pub round_4 : Float → Float
  pub repr : String → String

pub record SubStep : Type 0 where
  pub label : String
  pub io_label : String
  pub ok : Bool

pub record GateEval : Type 0 where
  pub gate : String
  pub result : Decision
  pub fired : Bool

pub record Candidate : Type 0 where
  pub title : String
  pub chunk_id : String
  pub dense_score : Float
  pub final_rank : ℕ

-- The `drilldown` of a stage: empty, the candidates, the gates by title, or the steps of the loop
pub data Drilldown : Type 0 where
  nothing : Drilldown
  candidates : List Candidate → Drilldown
  gates : List (String × List GateEval) → Drilldown
  loop : List (ℕ × String) → Drilldown

pub record Stage : Type 0 where
  pub id : String
  pub layer : String
  pub label : String
  pub takes : String
  pub does : String
  pub pushes_out : String
  pub duration_ms : ℕ
  pub status : String
  pub substeps : List SubStep
  pub drilldown : Drilldown

-- `InMemorySpanCollector.by_request`
unfoldable pub by_request : String → List Span → List Span
by_request request_id = keep (λ (sp : Span). sp.request_id == request_id)

-- The loop of `_span_ms`
unfoldable pub first_ms : Formats → String → List Span → ℕ
first_ms formats name [] = 0
first_ms formats name (sp ∷ rest) =
    let later = first_ms formats name rest in
    if sp.name == name then formats.to_ms sp.duration_s else later

-- `_span_ms`
unfoldable pub span_ms : Formats → List Span → String → String → ℕ
unfolding by_request first_ms
span_ms formats spans request_id name = first_ms formats name (by_request request_id spans)

-- `architecture.value`
unfoldable pub architecture_value : RagArchitecture → String
architecture_value RagArchitecture.advanced_hybrid = "advanced_hybrid"
architecture_value RagArchitecture.graph_rag = "graph_rag"
architecture_value RagArchitecture.agentic_loop = "agentic_loop"

-- `decision.decision == "mask"`
unfoldable pub is_mask : Decision → Bool
is_mask Decision.mask = true
is_mask _ = false

-- `decision.decision == "partial"`
unfoldable pub is_partial : Decision → Bool
is_partial Decision.partial = true
is_partial _ = false

-- `sum(1 for d in trail if ...)`
abbrev pub count_decisions : (Decision → Bool) → List GovernanceDecision → ℕ
count_decisions p = count_if (λ (d : GovernanceDecision). p d.decision)

-- The rows of the retrieval stage, from a rank on
unfoldable pub candidate_rows : Formats → ℕ → List ScoredChunk → List Candidate
candidate_rows formats rank [] = []
candidate_rows formats rank (c ∷ cs) =
    record {
      title = c.chunk.parent_title;
      chunk_id = c.chunk.chunk_id;
      dense_score = formats.round_4 c.score;
      final_rank = rank;
    }
    ∷ candidate_rows formats (rank + 1) cs

-- The rows of the governance stage: `zip(candidates, trail)`
unfoldable pub gate_rows :
    Formats → List ScoredChunk → List GovernanceDecision → List (String × List GateEval)
unfolding reason_text gate_fired_for
gate_rows formats (c ∷ cs) (d ∷ ds) =
    (
      c.chunk.parent_title,
      record {
        gate = gate_fired_for (reason_text formats.repr d.reason);
        result = d.decision;
        fired = true;
      }
          ∷ [],
    )
    ∷ gate_rows formats cs ds
gate_rows formats [] ds = []
gate_rows formats (c ∷ cs) [] = []

-- The loop over the spans of the corrective loop
unfoldable pub loop_steps : List Span → List (ℕ × String)
loop_steps [] = []
loop_steps (sp ∷ rest) =
    let steps = loop_steps rest in
    if sp.name == "selfrag_iteration"
    then (elim sp.iteration [ none ↦ 0 | some n ↦ n ], elim sp.action [ none ↦ "" | some a ↦ a ])
      ∷ steps
    else steps

abbrev pub loop_drilldown : List (ℕ × String) → Drilldown
loop_drilldown [] = Drilldown.nothing
loop_drilldown (s ∷ steps) = Drilldown.loop (s ∷ steps)

abbrev sub_step : String → String → SubStep
sub_step label io_label = record { label = label; io_label = io_label; ok = true }

-- The governance stage of `_assemble_stages`
unfoldable pub governance_stage :
    Formats → ℕ → List ScoredChunk → List GovernanceDecision → List ScoredChunk → Stage
unfolding gate_rows is_deny is_mask is_partial
governance_stage formats ms retrieved trail admitted =
    let n_deny = count_decisions is_deny trail in
    let n_mask = count_decisions is_mask trail in
    let n_partial = count_decisions is_partial trail in
    record {
      id = "governance";
      layer = "L5";
      label = "Governance";
      takes = concat (to_text (length retrieved)) " candidates + the session";
      does = "access.evaluate per candidate → allow/mask/partial/deny + redact";
      pushes_out = concat (to_text (length admitted)) (
          concat " admitted · " (
            concat (to_text n_deny) (
              concat " denied · " (
                concat (to_text n_mask)
                  (concat " masked · " (concat (to_text n_partial) " partial"))))));
      duration_ms = ms;
      status = if ltb 0 n_deny || (ltb 0 n_mask || ltb 0 n_partial) then "warn" else "ok";
      substeps =
          sub_step "deny → dropped before model" (concat (to_text n_deny) " dropped")
          ∷ sub_step "mask/partial → redacted" (concat (to_text (n_mask + n_partial)) " redacted")
          ∷ [];
      drilldown = Drilldown.gates (gate_rows formats retrieved trail);
    }

-- `_assemble_stages`
unfoldable pub assemble_stages :
    Formats
    → List Span
    → String
    → RagArchitecture
    → List ScoredChunk
    → List GovernanceDecision
    → List ScoredChunk
    → String
    → List Stage
unfolding span_ms architecture_value candidate_rows loop_steps governance_stage
assemble_stages formats spans request_id architecture retrieved trail admitted answer =
    let arch = architecture_value architecture in
    let found = concat (to_text (length retrieved)) " candidates" in
    let routing : Stage = record {
      id = "routing";
      layer = "L3";
      label = "Adaptive Routing";
      takes = "the raw query";
      does = "classify intent → retrieval architecture";
      pushes_out = concat "architecture = " arch;
      duration_ms = span_ms formats spans request_id "route";
      status = "ok";
      substeps = sub_step "complexity classifier" (concat "→ " arch) ∷ [];
      drilldown = Drilldown.nothing;
    } in
    let retrieval : Stage = record {
      id = "retrieval";
      layer = "L4";
      label = "Retrieval";
      takes = "the query embedding";
      does = "session-scoped retrieve + rerank";
      pushes_out = found;
      duration_ms = span_ms formats spans request_id "retrieve";
      status = "ok";
      substeps = sub_step "allowlist pre-filter + rerank" (concat "→ " found) ∷ [];
      drilldown = Drilldown.candidates (candidate_rows formats 1 retrieved);
    } in
    let generation : Stage = record {
      id = "generation";
      layer = "L4";
      label = "Generation";
      takes = concat (to_text (length admitted)) " admitted (governed) chunks";
      does = "generate the answer from admitted context only";
      pushes_out = "the governed answer";
      duration_ms = span_ms formats spans request_id "generate";
      status = "ok";
      substeps =
          sub_step "generate over admitted context" (concat (to_text (count answer)) " chars") ∷ [];
      drilldown = loop_drilldown (loop_steps (by_request request_id spans));
    } in
    routing
    ∷ retrieval
    ∷ governance_stage formats (span_ms formats spans request_id "govern") retrieved trail admitted
    ∷ generation
    ∷ []
