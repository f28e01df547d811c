-- ===== src/Retrieval/IdMap/Bijection.antt =====
-- The two directions of the map are inverse to each other, and stay so.
use enterprise_rag_engine.Prelude.{
  ℕ, ◌+◌, ◌<◌, ◌^◌, String, ◌≡◌, ◌∙◌, Option, none, some, string_eq, nat_eq, leb, arith, Bool-cases,
  Option-cases, beq_refl, leb→le, ◌≤◌, inl, inr,
}
use enterprise_rag_engine.Prelude.Dict.{lookup, insert, lookup-insert}
use enterprise_rag_engine.Retrieval.IdMap.{IdTable, empty_map, to_u64, to_chunk_id}

pub record IsBijection (m : IdTable) : Type 0 where
  pub there :
      (id : String) (u : ℕ) → lookup id m.fwd ≡ some u → (lookup u m.rev ≡ some id) × (u < m.next)
  pub back : (u : ℕ) (id : String) → lookup u m.rev ≡ some id → lookup id m.fwd ≡ some u

pub empty_map-IsBijection : IsBijection empty_map
unfolding empty_map lookup
empty_map-IsBijection = record {
  there = λ id u h. ground (arith, h);
  back = λ u id h. ground (arith, h);
}

module _ (m : IdTable) (id : String) (ok : IsBijection m) (new : lookup id m.fwd ≡ none) where
  abbrev extended : IdTable
  extended = record {
    fwd = insert id m.next m.fwd;
    rev = insert m.next id m.rev;
    next = m.next + 1;
  }

  extended-IsBijection : IsBijection extended
  extended-IsBijection = record {
    there = λ j u h. ground (
      arith,
      h,
      lookup-insert id j m.next m.fwd,
      lookup-insert m.next u id m.rev,
      string_eq.beq_iff id j,
      nat_eq.beq_iff m.next u,
      ok.there j u,
    );
    back = λ u j h. ground (
      arith,
      h,
      new,
      lookup-insert id j m.next m.fwd,
      lookup-insert m.next u id m.rev,
      string_eq.beq_iff id j,
      nat_eq.beq_iff m.next u,
      ok.back u j,
    );
  }

-- What `to_u64` gives for an id
abbrev pub Assigns : String → IdTable → Option (ℕ × IdTable) → Type 0
Assigns id m none = (2 ^ 64 ≤ m.next) × (lookup id m.fwd ≡ none)
Assigns id m (some (u, m')) =
    IsBijection m'
    × (to_chunk_id u m' ≡ some id)
    × (lookup id m'.fwd ≡ some u)
    × ((j : String) (v : ℕ) → lookup j m.fwd ≡ some v → lookup j m'.fwd ≡ some v)

-- From a map whose two directions are inverse to each other, `to_u64` raises only on a new id with
-- 2^64 numbers used up. Otherwise the two directions are inverse to each other again, the number
-- leads back to the id and the id to the number, and every id has the number that it had.
pub to_u64-Assigns : (id : String) (m : IdTable) → IsBijection m → Assigns id m (to_u64 id m)
unfolding to_u64 to_chunk_id
to_u64-Assigns id m ok = elim (Option-cases (lookup id m.fwd)) [
  | inr (u, old) ↦ rw (to_u64, old) (ok, (ok.there id u old).0, old, λ j v h. h)
  | inl new ↦ elim (Bool-cases (leb (2 ^ 64) m.next)) [
    | inl full ↦ rw (to_u64, new, full) (leb→le (2 ^ 64) m.next full, new)
    | inr free ↦
        let here : lookup id (insert id m.next m.fwd) ≡ some m.next =
          lookup-insert id id m.next m.fwd ∙ rw (beq_refl id) in
        let whole = extended-IsBijection m id ok new in
        rw (to_u64, new, free)
          (
            whole,
            (whole.there id m.next here).0,
            here,
            λ j v h.
                ground (arith, h, new, lookup-insert id j m.next m.fwd, string_eq.beq_iff id j),
          )
  ]
]
