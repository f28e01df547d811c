-- ===== src/Cache/Semantic/Bounded.antt =====
-- The size of the cache, and what each operation keeps of it.
use enterprise_rag_engine.Prelude.{
  ℕ, ◌≤◌, String, ◌≡◌, ◌∙◌, true, not, Option, none, some, List, [], ◌∷◌, string_eq, keep-All,
  length, ltb, arith, Bool-cases, inl, inr, beq_refl, All, contains,
}
use enterprise_rag_engine.Prelude.Dict.{Dict, lookup, erase, lookup-erase}
use enterprise_rag_engine.Schemas.{Session}
use enterprise_rag_engine.Cache.Semantic.{
  Setup, Entry, CachedResult, Cache, evict_lru, evict, move_to_end, put, invalidate_chunk,
  is_expired, serve, scope_of, get,
}
use enterprise_rag_engine.Prelude.DistinctKeys.{
  HasDistinctKeys, unless_dropped, lookup-keep_lem, keep-HasDistinctKeys, insert-HasDistinctKeys,
  erase-HasDistinctKeys, append-HasDistinctKeys,
}
use enterprise_rag_engine.Cache.Semantic.Hits.{get_lem}

module _ {Num Vec : Type 0} (setup : Setup Num Vec) where
  length-evict_lru :
      (d : Dict String (Entry Num Vec)) → length (evict_lru setup d) ≤ setup.max_entries
  unfolding evict_lru
  length-evict_lru [] = omega arith
  length-evict_lru (x ∷ xs) = ground (arith, length-evict_lru xs)

  evict_lru-HasDistinctKeys :
      (d : Dict String (Entry Num Vec)) → HasDistinctKeys d → HasDistinctKeys (evict_lru setup d)
  unfolding evict_lru
  evict_lru-HasDistinctKeys [] h = tt
  evict_lru-HasDistinctKeys ((k, e) ∷ d) h =
      elim (Bool-cases (ltb setup.max_entries (length ((k, e) ∷ d)))) [
        | inl over ↦ rw over (evict_lru-HasDistinctKeys d h.1)
        | inr fits ↦ rw fits h
      ]

  evict_lru-All :
      (P : String × Entry Num Vec → Type 0) (d : Dict String (Entry Num Vec))
      → All P d
      → All P (evict_lru setup d)
  unfolding evict_lru
  evict_lru-All P [] h = tt
  evict_lru-All P (x ∷ d) h = elim (Bool-cases (ltb setup.max_entries (length (x ∷ d)))) [
    | inl over ↦ rw over (evict_lru-All P d h.1)
    | inr fits ↦ rw fits h
  ]

  pub move_to_end-HasDistinctKeys :
      (k : String) (e : Entry Num Vec) (d : Dict String (Entry Num Vec))
      → HasDistinctKeys d
      → HasDistinctKeys (move_to_end setup k e d)
  unfolding move_to_end
  move_to_end-HasDistinctKeys k e d h =
      append-HasDistinctKeys k e (erase k d) (lookup-erase k k d ∙ rw (beq_refl k))
        (erase-HasDistinctKeys k d h)

  -- After a `put` the cache has at most `max_entries` entries, none of them expired and no two with
  -- the same key.
  pub put_lem :
      (created now : Num) (query : String) (session : Session) (chunk_ids : List String)
      (answer : String) (n_withheld : ℕ) (cache : Cache Num Vec)
      → HasDistinctKeys cache.entries
      → (length (put setup created now query session chunk_ids answer n_withheld cache).entries
          ≤ setup.max_entries)
        × All
            (λ x. not (is_expired setup now x.1) ≡ true)
            (put setup created now query session chunk_ids answer n_withheld cache).entries
        × HasDistinctKeys
            (put setup created now query session chunk_ids answer n_withheld cache).entries
  unfolding put evict
  put_lem created now query session chunk_ids answer n_withheld cache h = (
    length-evict_lru _,
    evict_lru-All _ _ (keep-All _ _),
    evict_lru-HasDistinctKeys _ (
        keep-HasDistinctKeys _ _
          (move_to_end-HasDistinctKeys _ _ _ (insert-HasDistinctKeys _ _ _ h))),
  )

  -- `get` keeps the keys distinct.
  pub get-HasDistinctKeys :
      (govern_fn : List String → Session → Option (List String)) (now : Num) (query : String)
      (session : Session) (cache : Cache Num Vec)
      → HasDistinctKeys cache.entries
      → (hit : Option (CachedResult Num)) × (after : Cache Num Vec) × (get setup govern_fn now query
            session cache
          ≡ some (hit, after))
        × HasDistinctKeys after.entries
  unfolding serve
  get-HasDistinctKeys govern_fn now query session cache h =
      elim (get_lem setup govern_fn now query session cache h) [
        | inl miss ↦ (none, cache, miss, h)
        | inr (sim, k, e, authorized, m, similar, done, same, served) ↦ (
          (serve setup session (scope_of setup session) sim k e authorized cache).0,
          (serve setup session (scope_of setup session) sim k e authorized cache).1,
          served,
          move_to_end-HasDistinctKeys k e cache.entries h,
        )
      ]

  -- `invalidate_chunk` drops an entry if and only if its answer rests on the chunk, and keeps every
  -- other one as it is.
  pub lookup-invalidate_chunk :
      (chunk_id k : String) (cache : Cache Num Vec)
      → HasDistinctKeys cache.entries
      → HasDistinctKeys (invalidate_chunk setup chunk_id cache).entries
        × (lookup k (invalidate_chunk setup chunk_id cache).entries
            ≡ unless_dropped (λ e. not (contains chunk_id e.chunk_ids)) (lookup k cache.entries))
  unfolding invalidate_chunk
  lookup-invalidate_chunk chunk_id k cache h = (
    keep-HasDistinctKeys (λ x. not (contains chunk_id x.1.chunk_ids)) cache.entries h,
    lookup-keep_lem (λ e. not (contains chunk_id e.chunk_ids)) k cache.entries h,
  )
