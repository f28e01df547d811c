-- ===== src/Schemas/Data.antt =====
-- The classes of src/rag_engine/schemas.py.
use Prim.Native.String.{◌++◌ as concat, slice}
use enterprise_rag_engine.Prelude.{
  ℕ, String, Bool, ◌&&◌, ◌||◌, Option, List, ◌==◌, nat_eq, string_eq, if◌then◌else◌, is_empty,
  contains, strip, is_nil,
}
use enterprise_rag_engine.Prelude.Dict.{Dict}

-- A binary64 value by its bit pattern. Its arithmetic is a parameter wherever it is used.
pub data Float : Type 0 where
  bits : ℕ → Float

-- The values of a `dict[str, Any]`: JSON-like data, bytes and floats.
mutual
  pub data Value : Type 0 where
    null : Value
    boolean : Bool → Value
    int : ℕ → Value
    negative : ℕ → Value
    float : Float → Value
    text : String → Value
    bytes : List ℕ → Value
    array : Values → Value
    object : Fields → Value

  pub data Values : Type 0 where
    nil : Values
    cons : Value → Values → Values

  pub data Fields : Type 0 where
    end : Fields
    field : String → Value → Fields → Fields

-- A chunk's metadata: the role names under `partial_for`, if that key is there, and the rest.
pub record Metadata : Type 0 where
  pub partial_for : Option (List String)
  pub others : Dict String Value

pub record SecurityContext : Type 0 where
  pub allowed_roles : List String
  pub clearance_level : ℕ
  pub owner_department : String
  pub sensitivity_class : String
  pub need_to_know_roles : List String

unfoldable pub is_public : SecurityContext → Bool
is_public sec =
    sec.clearance_level == 0 && (is_empty sec.allowed_roles || contains "PUBLIC" sec.allowed_roles)

pub record Document : Type 0 where
  pub doc_id : String
  pub title : String
  pub content : String
  pub security : SecurityContext
  pub summary : String
  pub source_uri : String
  pub metadata : Metadata

pub record EnrichedChunk : Type 0 where
  pub chunk_id : String
  pub parent_doc_id : String
  pub parent_title : String
  pub content : String
  pub contextual_anchor : String
  pub security : SecurityContext
  pub ordinal : ℕ
  pub modality : String
  pub metadata : Metadata

unfoldable pub embedding_text : EnrichedChunk → String
embedding_text c =
    let anchor = strip c.contextual_anchor in
    if is_nil anchor then c.content else strip (concat anchor (concat "\n" c.content))

-- `sha256` is hashlib's, as the hexadecimal digest of a text.
unfoldable pub doc_hash : (String → String) → EnrichedChunk → String
doc_hash sha256 c = slice (sha256 c.content) 0 16

pub record Session : Type 0 where
  pub user_id : String
  pub roles : List String
  pub clearance_level : ℕ

pub record ScoredChunk : Type 0 where
  pub chunk : EnrichedChunk
  pub score : Float
  pub lexical_rank : Option ℕ
  pub dense_rank : Option ℕ

pub record Citation : Type 0 where
  pub chunk_id : String
  pub parent_doc_id : String
  pub parent_title : String
  pub doc_hash : String
  pub quote : String

-- The four decisions, and any other text that the field could hold.
pub data Decision : Type 0 where
  allow mask partial deny : Decision
  other : String → Decision

-- The reason texts that `access.evaluate` formats, with the values that it formats in.
pub data Reason : Type 0 where
  public_content pii_cleared pii_masked pii_below_min_level scoped_access : Reason
  clearance_and_role_satisfied : Reason
  unrecognized_sensitivity_class : String → Reason
  insufficient_clearance : ℕ → ℕ → Reason
  need_to_know role_mismatch : List String → Reason

pub record GovernanceDecision : Type 0 where
  pub chunk_id : String
  pub parent_doc_id : String
  pub decision : Decision
  pub reason : Reason
  pub required_roles : List String
  pub session_roles : List String
  pub mask_reason : String
  pub scope : String

pub data RagArchitecture : Type 0 where
  advanced_hybrid graph_rag agentic_loop : RagArchitecture

-- `created_at` is left out.
pub record RagResponse : Type 0 where
  pub query : String
  pub answer : String
  pub architecture : RagArchitecture
  pub citations : List Citation
  pub access_denied : Bool
  pub retrieved : ℕ
  pub admitted : ℕ
  pub blocked : ℕ
  pub n_withheld : ℕ
  pub governance_trail : List GovernanceDecision
