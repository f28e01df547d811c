-- ===== src/Retrieval/IdMap.antt =====
-- src/rag_engine/retrieval/id_map.py: numbers of 64 bits for the ids of chunks.
pub mod Bijection
use enterprise_rag_engine.Prelude.{
  ℕ, ◌+◌, ◌^◌, String, Bool, Option, none, some, List, [], ◌∷◌, string_eq, nat_eq, leb,
  if◌then◌else◌,
}
use enterprise_rag_engine.Prelude.Dict.{Dict, lookup, has_key, insert}

-- `_fwd`, `_rev` and `_next`
pub record IdTable : Type 0 where
  pub fwd : Dict String ℕ
  pub rev : Dict ℕ String
  pub next : ℕ

unfoldable pub empty_map : IdTable
empty_map = record { fwd = []; rev = []; next = 1 }

-- `to_u64`: the number and the map; `none` is the OverflowError.
unfoldable pub to_u64 : String → IdTable → Option (ℕ × IdTable)
to_u64 chunk_id m = elim (lookup chunk_id m.fwd) [
  | some u ↦ some (u, m)
  | none ↦
      if leb (2 ^ 64) m.next
      then none
      else some (
        m.next,
        record {
          fwd = insert chunk_id m.next m.fwd;
          rev = insert m.next chunk_id m.rev;
          next = m.next + 1;
        },
      )
]

unfoldable pub to_chunk_id : ℕ → IdTable → Option String
to_chunk_id u m = lookup u m.rev

-- `contains`
unfoldable pub has_id : String → IdTable → Bool
unfolding has_key
has_id chunk_id m = has_key chunk_id m.fwd

-- `{int(v): k for k, v in fwd.items()}`, from the dictionary `acc` on
unfoldable pub reversed_from : Dict ℕ String → Dict String ℕ → Dict ℕ String
reversed_from acc [] = acc
reversed_from acc ((k, v) ∷ d) = reversed_from (insert v k acc) d

unfoldable pub to_dict : IdTable → Dict String ℕ × ℕ
to_dict m = (m.fwd, m.next)

unfoldable pub from_dict : Dict String ℕ × ℕ → IdTable
unfolding reversed_from
from_dict (fwd, next) = record { fwd = fwd; rev = reversed_from [] fwd; next = next }
