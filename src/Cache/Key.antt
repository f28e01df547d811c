-- ===== src/Cache/Key.antt =====
-- src/rag_engine/cache/key.py: the scope of a session, under which its answers are cached.
pub mod Scope
use Prim.Native.String.{◌++◌}
use enterprise_rag_engine.Prelude.{ℕ, String, List, [], ◌∷◌}
use enterprise_rag_engine.Prelude.Decimal.{to_text}
use enterprise_rag_engine.Prelude.Sets.{sorted_set}
use enterprise_rag_engine.Schemas.{Session}

pub record AuthScope : Type 0 where
  pub clearance_level : ℕ
  pub roles : List String

-- `AuthScope.from_session`
unfoldable pub from_session : Session → AuthScope
from_session session = record {
  clearance_level = session.clearance_level;
  roles = sorted_set session.roles;
}

-- `sep.join(parts)`
unfoldable pub join : String → List String → String
join sep [] = ""
join sep (s ∷ []) = s
join sep (s ∷ t ∷ ts) = s ++ (sep ++ join sep (t ∷ ts))

-- The digest of the level and the roles; `sha256` is hashlib's, as a hexadecimal text.
unfoldable pub fingerprint : (String → String) → AuthScope → String
unfolding to_text join
fingerprint sha256 scope =
    sha256 (("L" ++ (to_text scope.clearance_level ++ "\u{1f}")) ++ join "\u{1f}" scope.roles)
