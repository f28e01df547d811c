-- ===== src/Governance/Allowlist.antt =====
-- src/rag_engine/governance/allowlist.py: the ids that a session may retrieve.
pub mod Agrees
use enterprise_rag_engine.Prelude.{
  String, ◌≡◌, Bool, Option, none, some, List, [], ◌∷◌, if◌then◌else◌,
}
use enterprise_rag_engine.Schemas.{EnrichedChunk, Session}
use enterprise_rag_engine.Governance.Access.{evaluate}
use enterprise_rag_engine.Governance.Filter.{is_deny}

-- `InProcessAllowlist.authorized_ids`
unfoldable pub in_process_ids : Session → List EnrichedChunk → List String
unfolding is_deny
in_process_ids s [] = []
in_process_ids s (c ∷ cs) =
    let out = in_process_ids s cs in
    if is_deny (evaluate c s).decision then out else c.chunk_id ∷ out

-- `AllowlistBackend`
pub record AllowlistBackend : Type 0 where
  pub authorized_ids : Session → List EnrichedChunk → List String

unfoldable pub authorized_chunk_ids :
    Session → List EnrichedChunk → Option AllowlistBackend → List String
authorized_chunk_ids s cs none = in_process_ids s cs
authorized_chunk_ids s cs (some backend) = backend.authorized_ids s cs
