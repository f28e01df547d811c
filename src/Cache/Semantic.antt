-- ===== src/Cache/Semantic.antt =====
-- src/rag_engine/cache/semantic_cache.py: the cache of answers. The embedder, numpy's dot product,
-- the arithmetic of Python's floats, hashlib's digest and the clock's readings are parameters.
pub mod Keys
pub mod Hits
pub mod Bounded
use Prim.Native.String.{◌++◌ as append}
use enterprise_rag_engine.Prelude.{
  ℕ, ◌+◌, ◌-◌, String, Bool, true, false, not, ◌&&◌, Option, none, some, List, [], ◌∷◌, ◌++◌, ◌==◌,
  string_eq, ltb, if◌then◌else◌, contains, all, keep, length,
}
use enterprise_rag_engine.Prelude.Decimal.{to_text}
use enterprise_rag_engine.Prelude.Dict.{Dict, lookup, insert, erase}
use enterprise_rag_engine.Schemas.{Session}
use enterprise_rag_engine.Cache.Key.{from_session, fingerprint}

-- What the cache is built with, and what it uses of Python and numpy.
pub record Setup (Num Vec : Type 0) : Type 0 where
  pub gt : Num → Num → Bool
  pub lt : Num → Num → Bool
  pub minus : Num → Num → Num
  pub minus_one : Num
  pub dot : Vec → Vec → Num
  pub embed : String → Vec
  pub sha256 : String → String
  pub similarity_threshold : Num
  pub ttl_seconds : Num
  pub max_entries : ℕ

pub record Entry (Num Vec : Type 0) : Type 0 where
  pub query_text : String
  pub query_vec : Vec
  pub scope_fp : String
  pub chunk_ids : List String
  pub answer : String
  pub created_at : Num
  pub ttl_seconds : Num
  pub n_withheld : ℕ

pub record CachedResult (Num : Type 0) : Type 0 where
  pub answer : String
  pub chunk_ids : List String
  pub similarity : Num
  pub scope_fp : String
  pub n_withheld : ℕ

-- The detail of a `cache_hit` event of the audit
pub record HitEvent (Num : Type 0) : Type 0 where
  pub user_id : String
  pub similarity : Num
  pub scope_fp : String
  pub n_chunks : ℕ

pub record Cache (Num Vec : Type 0) : Type 0 where
  pub entries : Dict String (Entry Num Vec)
  pub counter : ℕ
  pub audit : List (HitEvent Num)

-- `set(xs) == set(ys)`
unfoldable pub same_set : List String → List String → Bool
same_set xs ys = all (λ x. contains x ys) xs && all (λ y. contains y xs) ys

-- `f"{scope_fp}:{counter}"`
unfoldable pub key_of : String → ℕ → String
key_of fp n = append fp (append ":" (to_text n))

module _ {Num Vec : Type 0} (setup : Setup Num Vec) where
  unfoldable pub scope_of : Session → String
  scope_of session = fingerprint setup.sha256 (from_session session)

  -- `_Entry.expired`
  unfoldable pub is_expired : Num → Entry Num Vec → Bool
  is_expired now e = setup.gt (setup.minus now e.created_at) e.ttl_seconds

  -- One round of the scan of `get`: the best similarity and its key so far.
  unfoldable pub consider :
      String → Num → Vec → Num × Option String → String × Entry Num Vec → Num × Option String
  unfolding is_expired
  consider fp now q (best, key) (k, e) =
      if not (e.scope_fp == fp)
      then (best, key)
      else if is_expired now e
      then (best, key)
      else if setup.gt (setup.dot q e.query_vec) best
      then (setup.dot q e.query_vec, some k)
      else (best, key)

  unfoldable pub scan :
      String → Num → Vec → Num × Option String → Dict String (Entry Num Vec) → Num × Option String
  scan fp now q best [] = best
  scan fp now q best (x ∷ xs) = scan fp now q (consider fp now q best x) xs

  -- `OrderedDict.move_to_end`
  unfoldable pub move_to_end :
      String → Entry Num Vec → Dict String (Entry Num Vec) → Dict String (Entry Num Vec)
  move_to_end k e entries = erase k entries ++ (k, e) ∷ []

  -- The hit that `get` returns for the entry `e` of the key `k`
  unfoldable pub serve :
      Session
      → String
      → Num
      → String
      → Entry Num Vec
      → List String
      → Cache Num Vec
      → Option (CachedResult Num) × Cache Num Vec
  unfolding move_to_end
  serve session fp sim k e authorized cache = (
    some (record {
      answer = e.answer;
      chunk_ids = authorized;
      similarity = sim;
      scope_fp = fp;
      n_withheld = e.n_withheld;
    }),
    record cache {
      entries = move_to_end k e cache.entries;
      audit =
          cache.audit
          ++ (record {
            user_id = session.user_id;
            similarity = sim;
            scope_fp = fp;
            n_chunks = length authorized;
          })
            ∷ [];
    },
  )

  -- What `get` does with the best entry; `none` of `govern_fn` is an exception.
  unfoldable pub regovern :
      (List String → Session → Option (List String))
      → Session
      → String
      → Num
      → String
      → Entry Num Vec
      → Cache Num Vec
      → Option (CachedResult Num) × Cache Num Vec
  unfolding serve
  regovern govern_fn session fp sim k e cache = elim (govern_fn e.chunk_ids session) [
    | none ↦ (none, cache)
    | some authorized ↦
        if same_set authorized e.chunk_ids
        then serve session fp sim k e authorized cache
        else (none, cache)
  ]

  -- What `get` does with the outcome of its scan; the outer `none` is a KeyError.
  unfoldable pub conclude :
      (List String → Session → Option (List String))
      → Session
      → String
      → Cache Num Vec
      → Num × Option String
      → Option (Option (CachedResult Num) × Cache Num Vec)
  unfolding regovern
  conclude govern_fn session fp cache (sim, none) = some (none, cache)
  conclude govern_fn session fp cache (sim, some k) =
      if setup.lt sim setup.similarity_threshold
      then some (none, cache)
      else elim (lookup k cache.entries) [
        | none ↦ none
        | some e ↦ some (regovern govern_fn session fp sim k e cache)
      ]

  -- `SemanticCache.get` at the time `now`
  unfoldable pub get :
      (List String → Session → Option (List String))
      → Num
      → String
      → Session
      → Cache Num Vec
      → Option (Option (CachedResult Num) × Cache Num Vec)
  unfolding scope_of scan conclude
  get govern_fn now query session cache =
      conclude govern_fn session (scope_of session) cache
        (scan (scope_of session) now (setup.embed query) (setup.minus_one, none) cache.entries)

  -- `popitem(last=False)` while there are more than `max_entries`
  unfoldable pub evict_lru : Dict String (Entry Num Vec) → Dict String (Entry Num Vec)
  evict_lru [] = []
  evict_lru (x ∷ xs) =
      let rest = evict_lru xs in if ltb setup.max_entries (length (x ∷ xs)) then rest else x ∷ xs

  -- `_evict`: the expired entries first
  unfoldable pub evict : Num → Dict String (Entry Num Vec) → Dict String (Entry Num Vec)
  unfolding evict_lru
  evict now entries = evict_lru (keep (λ x. not (is_expired now x.1)) entries)

  -- `SemanticCache.put`, whose entry is made at `created` and which evicts at `now`
  unfoldable pub put :
      Num → Num → String → Session → List String → String → ℕ → Cache Num Vec → Cache Num Vec
  unfolding scope_of key_of move_to_end evict
  put created now query session chunk_ids answer n_withheld cache =
      let fp = scope_of session in
      let key = key_of fp (cache.counter + 1) in
      let e : Entry Num Vec = record {
        query_text = query;
        query_vec = setup.embed query;
        scope_fp = fp;
        chunk_ids = chunk_ids;
        answer = answer;
        created_at = created;
        ttl_seconds = setup.ttl_seconds;
        n_withheld = n_withheld;
      } in
      record cache {
        entries = evict now (move_to_end key e (insert key e cache.entries));
        counter = cache.counter + 1;
      }

  -- `invalidate_chunk`
  unfoldable pub invalidate_chunk : String → Cache Num Vec → Cache Num Vec
  invalidate_chunk chunk_id cache = record cache {
    entries = keep (λ x. not (contains chunk_id x.1.chunk_ids)) cache.entries;
  }
