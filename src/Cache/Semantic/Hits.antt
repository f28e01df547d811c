-- ===== src/Cache/Semantic/Hits.antt =====
-- What a hit of the cache guarantees.
use enterprise_rag_engine.Prelude.{
  String, ◌≡◌, refl, ap, ◌∙◌, true, false, Option, none, some, List, [], ◌∷◌, ◌==◌, string_eq,
  contains, all, arith, Bool-cases, Option-cases, ◌⊎◌, inl, inr, All,
}
use enterprise_rag_engine.Prelude.Dict.{Dict, lookup}
use enterprise_rag_engine.Schemas.{Session}
use enterprise_rag_engine.Cache.Semantic.{
  Setup, Entry, CachedResult, Cache, same_set, scope_of, is_expired, consider, scan, serve,
  regovern, conclude, get,
}
use enterprise_rag_engine.Prelude.DistinctKeys.{HasDistinctKeys, HasDistinctKeys-lookup}

module _ {Num Vec : Type 0} (setup : Setup Num Vec) where
  -- The best entry of a scan: it is in the cache, of the scope, not expired, and has the similarity.
  abbrev pub Matches :
      Dict String (Entry Num Vec) → String → Num → Vec → Num → String → Entry Num Vec → Type 0
  Matches entries fp now q sim k e =
      (lookup k entries ≡ some e)
      × (e.scope_fp ≡ fp)
      × (is_expired setup now e ≡ false)
      × (sim ≡ setup.dot q e.query_vec)

  abbrev MatchesSome :
      Dict String (Entry Num Vec) → String → Num → Vec → Num × Option String → Type 0
  MatchesSome entries fp now q (sim, none) = Unit
  MatchesSome entries fp now q (sim, some k) =
      (e : Entry Num Vec) × Matches entries fp now q sim k e

  consider_lem :
      (entries : Dict String (Entry Num Vec)) (fp : String) (now : Num) (q : Vec)
      (best : Num × Option String) (k : String) (e : Entry Num Vec)
      → MatchesSome entries fp now q best
      → lookup k entries ≡ some e
      → MatchesSome entries fp now q (consider setup fp now q best (k, e))
  unfolding consider
  consider_lem entries fp now q (sim, key) k e old found = elim (Bool-cases (e.scope_fp == fp)) [
    | inr other ↦ rw other old
    | inl same ↦ elim (Bool-cases (is_expired setup now e)) [
      | inl expired ↦ rw (same, expired) old
      | inr fresh ↦ elim (Bool-cases (setup.gt (setup.dot q e.query_vec) sim)) [
        | inl better ↦
            rw (same, fresh, better)
              (e, (found, (string_eq.beq_iff e.scope_fp fp).0 same, fresh, refl))
        | inr worse ↦ rw (same, fresh, worse) old
      ]
    ]
  ]

  scan_lem :
      (entries : Dict String (Entry Num Vec)) (fp : String) (now : Num) (q : Vec)
      (best : Num × Option String) (d : Dict String (Entry Num Vec))
      → MatchesSome entries fp now q best
      → All (λ x. lookup x.0 entries ≡ some x.1) d
      → MatchesSome entries fp now q (scan setup fp now q best d)
  unfolding scan
  scan_lem entries fp now q best [] old all = old
  scan_lem entries fp now q best ((k, e) ∷ d) old (found, all) =
      scan_lem entries fp now q (consider setup fp now q best (k, e)) d
        (consider_lem entries fp now q best k e old found) all

  all-contains :
      (xs ys : List String) (a : String)
      → all (λ x. contains x ys) xs ≡ true
      → contains a xs ≡ true
      → contains a ys ≡ true
  unfolding all contains
  all-contains [] ys a h m = ground (arith, m)
  all-contains (x ∷ xs) ys a h m = elim (Bool-cases (a == x)) [
    | inl same ↦ ap (λ k. contains k ys) ((string_eq.beq_iff a x).0 same) ∙ ground (arith, h)
    | inr other ↦ all-contains xs ys a (ground (arith, h)) (ground (arith, m, other))
  ]

  same_set-contains :
      (xs ys : List String) (a : String) → same_set xs ys ≡ true → contains a xs ≡ contains a ys
  unfolding same_set
  same_set-contains xs ys a h =
      let sub : contains a xs ≡ true → contains a ys ≡ true =
        all-contains xs ys a (ground (arith, h)) in
      let sup : contains a ys ≡ true → contains a xs ≡ true =
        all-contains ys xs a (ground (arith, h)) in
      ground (arith, sub, sup)

  -- A hit: the entry it serves is of the session's own scope, has not expired and is as similar
  -- as the threshold asks, and `govern_fn` admits now exactly the chunks its answer rests on.
  abbrev pub IsHit :
      (List String → Session → Option (List String))
      → Num
      → String
      → Session
      → Cache Num Vec
      → Option (Option (CachedResult Num) × Cache Num Vec)
      → Type 0
  IsHit govern_fn now query session cache result =
      (sim : Num) × (k : String) × (e : Entry Num Vec) × (authorized : List String) × Matches
        cache.entries (scope_of setup session) now (setup.embed query) sim k e
      × (setup.lt sim setup.similarity_threshold ≡ false)
      × (govern_fn e.chunk_ids session ≡ some authorized)
      × ((id : String) → contains id authorized ≡ contains id e.chunk_ids)
      × (result ≡ some (serve setup session (scope_of setup session) sim k e authorized cache))

  regovern_lem :
      (govern_fn : List String → Session → Option (List String)) (session : Session) (fp : String)
      (sim : Num) (k : String) (e : Entry Num Vec) (cache : Cache Num Vec)
      → (regovern setup govern_fn session fp sim k e cache ≡ (none, cache))
        ⊎ ((authorized : List String) × (govern_fn e.chunk_ids session ≡ some authorized)
            × ((id : String) → contains id authorized ≡ contains id e.chunk_ids)
            × (regovern setup govern_fn session fp sim k e cache
                ≡ serve setup session fp sim k e authorized cache))
  unfolding regovern
  regovern_lem govern_fn session fp sim k e cache =
      elim (Option-cases (govern_fn e.chunk_ids session)) [
        | inl raised ↦ inl (rw (regovern, raised))
        | inr (authorized, done) ↦ elim (Bool-cases (same_set authorized e.chunk_ids)) [
          | inr changed ↦ inl (rw (regovern, done, changed))
          | inl same ↦ inr (
            authorized,
            done,
            λ id. same_set-contains authorized e.chunk_ids id same,
            rw (regovern, done, same),
          )
        ]
      ]

  -- `get` never raises a KeyError on distinct keys: it is a miss that leaves the cache as it is, or
  -- a hit on an entry of the session's scope, not expired, similar enough, whose chunks are exactly
  -- those that `govern_fn` admits now.
  pub get_lem :
      (govern_fn : List String → Session → Option (List String)) (now : Num) (query : String)
      (session : Session) (cache : Cache Num Vec)
      → HasDistinctKeys cache.entries
      → (get setup govern_fn now query session cache ≡ some (none, cache))
        ⊎ IsHit govern_fn now query session cache (get setup govern_fn now query session cache)
  unfolding get conclude
  get_lem govern_fn now query session cache distinct =
      go (scan setup fp now q (setup.minus_one, none) cache.entries) refl (
        scan_lem cache.entries fp now q (setup.minus_one, none) cache.entries tt
          (HasDistinctKeys-lookup cache.entries distinct))
    where
      fp : String
      fp = scope_of setup session

      q : Vec
      q = setup.embed query

      go :
          (best : Num × Option String)
          → scan setup fp now q (setup.minus_one, none) cache.entries ≡ best
          → MatchesSome cache.entries fp now q best
          → (get setup govern_fn now query session cache ≡ some (none, cache))
            ⊎ IsHit govern_fn now query session cache (get setup govern_fn now query session cache)
      go (sim, none) best m = inl (ap (conclude setup govern_fn session fp cache) best)
      go (sim, some k) best (e, m) = elim (Bool-cases (setup.lt sim setup.similarity_threshold)) [
        | inl low ↦ inl (ap (conclude setup govern_fn session fp cache) best ∙ rw (conclude, low))
        | inr similar ↦ elim (regovern_lem govern_fn session fp sim k e cache) [
          | inl miss ↦ inl (
              ap (conclude setup govern_fn session fp cache) best
              ∙ rw (conclude, similar, m.0, miss))
          | inr (authorized, done, same, served) ↦ inr (
            sim,
            k,
            e,
            authorized,
            m,
            similar,
            done,
            same,
            ap (conclude setup govern_fn session fp cache) best
                ∙ rw (conclude, similar, m.0, served),
          )
        ]
      ]
