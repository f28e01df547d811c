-- ===== src/Cdc/Processor/Converges.antt =====
-- A whole stream over a store and a cache that work: what it leaves, and that the order and the
-- repetitions of its events do not matter.
use mathlib.Core.Path.{subst}
use enterprise_rag_engine.Prelude.{
  ℕ, String, ◌≡◌, refl, sym, ap, ◌∙◌, Bool, true, false, Option, none, some, List, [], ◌∷◌, ◌++◌,
  string_eq, arith, leb, ◌==◌, if◌then◌else◌, Bool-cases, inl, inr, ◌⊎◌,
}
use enterprise_rag_engine.Prelude.Dict.{lookup, insert, lookup-insert}
use enterprise_rag_engine.Schemas.{Value}
use enterprise_rag_engine.Cdc.Events.{ChunkChangeEvent, is_delete}
use enterprise_rag_engine.Cdc.Processor.{
  Row, Backend, CdcState, audit_applied, span_applied, span_skipped, Outcome, applied, skipped,
  row_of, dispatch, attempts, is_stale, apply, run,
}
use enterprise_rag_engine.Cdc.Processor.Ordering.{
  newer, newer-other, newer-wins, newest_from, newest, newest-SameEvents, SameEvents,
  VersionsUnique,
}

-- What the processor relies on in a store and a cache that work: `row` is the store's row of a
-- chunk, `cached` says whether a cache entry refers to it.
pub record Reliable {World : Type 0} (backend : Backend World) : Type 0 where
  pub row : String → World → Option Row
  pub cached : String → World → Bool
  pub upsert_works :
      (id : String) (r : Row) (w : World)
      → lookup "chunk_id" r ≡ some (Value.text id)
      → ((backend.upsert_chunk r w).0 ≡ true)
        × ((j : String)
            → row j (backend.upsert_chunk r w).1 ≡ (if id == j then some r else row j w))
        × ((j : String) → cached j (backend.upsert_chunk r w).1 ≡ cached j w)
  pub delete_works :
      (id : String) (w : World)
      → ((backend.delete_chunk id w).0 ≡ true)
        × ((j : String) → row j (backend.delete_chunk id w).1 ≡ (if id == j then none else row j w))
        × ((j : String) → cached j (backend.delete_chunk id w).1 ≡ cached j w)
  pub invalidate_works :
      (id : String) (w : World)
      → ((backend.invalidate_chunk id w).0 ≡ true)
        × ((j : String) → row j (backend.invalidate_chunk id w).1 ≡ row j w)
        × (cached id (backend.invalidate_chunk id w).1 ≡ false)
        × ((j : String) → cached j w ≡ false → cached j (backend.invalidate_chunk id w).1 ≡ false)

-- The row that an event leaves
abbrev pub row_after : ChunkChangeEvent → Option Row
row_after e = if is_delete e.op then none else some (row_of e)

module _ {World : Type 0} (backend : Backend World) (works : Reliable backend) where
  -- The state of the chunk `j` after the event `newest`, or as it was in `w` if there was none.
  abbrev pub Reflects : World → CdcState World → String → Option ChunkChangeEvent → Type 0
  Reflects w st j none =
      (lookup j st.applied_version ≡ none)
      × (works.row j st.world ≡ works.row j w)
      × (works.cached j w ≡ false → works.cached j st.world ≡ false)
  Reflects w st j (some e) =
      (lookup j st.applied_version ≡ some e.source_version)
      × (works.row j st.world ≡ row_after e)
      × (works.cached j st.world ≡ false)

  -- A store call that went through, followed by the cache's.
  finished :
      (id : String) (r : Option Row) (w w' : World)
      → ((j : String) → works.row j w' ≡ (if id == j then r else works.row j w))
      → ((j : String) → works.cached j w' ≡ works.cached j w)
      → ((backend.invalidate_chunk id w').0 ≡ true)
        × ((j : String)
            → works.row j (backend.invalidate_chunk id w').1
              ≡ (if id == j then r else works.row j w))
        × (works.cached id (backend.invalidate_chunk id w').1 ≡ false)
        × ((j : String)
            → works.cached j w ≡ false
            → works.cached j (backend.invalidate_chunk id w').1 ≡ false)
  finished id r w w' rows cached =
      let (done, rows', gone, cached') = works.invalidate_works id w' in
      (done, λ j. rows' j ∙ rows j, gone, λ j h. cached' j (cached j ∙ h))

  dispatch-works :
      (e : ChunkChangeEvent) (w : World)
      → ((dispatch backend e w).0 ≡ true)
        × ((j : String)
            → works.row j (dispatch backend e w).1
              ≡ (if e.chunk_id == j then row_after e else works.row j w))
        × (works.cached e.chunk_id (dispatch backend e w).1 ≡ false)
        × ((j : String)
            → works.cached j w ≡ false
            → works.cached j (dispatch backend e w).1 ≡ false)
  unfolding dispatch row_of
  dispatch-works e w = elim (Bool-cases (is_delete e.op)) [
    | inl gone ↦
        let (done, rows, cached) = works.delete_works e.chunk_id w in
        rw (gone, done)
          (finished e.chunk_id none w (backend.delete_chunk e.chunk_id w).1 rows cached)
    | inr kept ↦
        let named : lookup "chunk_id" (row_of e) ≡ some (Value.text e.chunk_id) =
          lookup-insert "chunk_id" "chunk_id" (Value.text e.chunk_id) e.payload in
        let (done, rows, cached) = works.upsert_works e.chunk_id (row_of e) w named in
        rw (kept, done)
          (finished e.chunk_id (some (row_of e)) w (backend.upsert_chunk (row_of e) w).1 rows
            cached)
  ]

  -- Another chunk's view is as it was.
  Reflects-other :
      (w : World) (st st' : CdcState World) (j : String) (o : Option ChunkChangeEvent)
      → lookup j st'.applied_version ≡ lookup j st.applied_version
      → works.row j st'.world ≡ works.row j st.world
      → (works.cached j st.world ≡ false → works.cached j st'.world ≡ false)
      → Reflects w st j o
      → Reflects w st' j o
  Reflects-other w st st' j none v r c (v0, r0, c0) = (v ∙ v0, r ∙ r0, λ h. c (c0 h))
  Reflects-other w st st' j (some a) v r c (v0, r0, c0) = (v ∙ v0, r ∙ r0, c c0)

  -- The state after an event that is not stale
  abbrev after_applied : ChunkChangeEvent → CdcState World → CdcState World
  after_applied e st = record st {
    world = (dispatch backend e st.world).1;
    applied_version = insert e.chunk_id e.source_version st.applied_version;
    notices = st.notices ++ audit_applied e 0 ∷ span_applied e ∷ [];
  }

  apply-fresh :
      (max_retries : ℕ) (e : ChunkChangeEvent) (st : CdcState World)
      → is_stale backend e st ≡ false
      → apply backend max_retries e st ≡ some (applied, after_applied e st)
  unfolding apply attempts
  apply-fresh max_retries e st fresh = rw (fresh, (dispatch-works e st.world).0)

  apply-stale :
      (max_retries : ℕ) (e : ChunkChangeEvent) (st : CdcState World)
      → is_stale backend e st ≡ true
      → apply backend max_retries e st
        ≡ some (skipped, record st { notices = st.notices ++ span_skipped e ∷ [] })
  unfolding apply
  apply-stale max_retries e st stale = rw stale

  is_stale-lookup :
      (e : ChunkChangeEvent) (st : CdcState World) (j : String) (last : Option ℕ)
      → e.chunk_id ≡ j
      → lookup j st.applied_version ≡ last
      → is_stale backend e st ≡ (elim last [ none ↦ false | some v ↦ leb e.source_version v ])
  unfolding is_stale
  is_stale-lookup e st j last same found =
      ap (λ k. verdict (lookup k st.applied_version)) same ∙ ap verdict found
    where
      verdict : Option ℕ → Bool
      verdict o = elim o [ none ↦ false | some v ↦ leb e.source_version v ]

  Reflects-fresh :
      (w : World) (st : CdcState World) (e : ChunkChangeEvent) (j : String)
      (o : Option ChunkChangeEvent)
      → Reflects w st j o
      → is_stale backend e st ≡ false
      → Reflects w (after_applied e st) j (newer j o e)
  Reflects-fresh w st e j o h fresh = go (Bool-cases (e.chunk_id == j))
    where
      versions :
          lookup j (insert e.chunk_id e.source_version st.applied_version)
          ≡ (if e.chunk_id == j then some e.source_version else lookup j st.applied_version)
      versions = lookup-insert e.chunk_id j e.source_version st.applied_version

      rows :
          works.row j (dispatch backend e st.world).1
          ≡ (if e.chunk_id == j then row_after e else works.row j st.world)
      rows = (dispatch-works e st.world).1 j

      gone : works.cached e.chunk_id (dispatch backend e st.world).1 ≡ false
      gone = (dispatch-works e st.world).2

      cached :
          works.cached j st.world ≡ false → works.cached j (dispatch backend e st.world).1 ≡ false
      cached = (dispatch-works e st.world).3 j

      some_same : {a b : ChunkChangeEvent} → some b ≡ some a → a ≡ b
      some_same found = ground (arith, found)

      older :
          (o : Option ChunkChangeEvent)
          → Reflects w st j o
          → e.chunk_id ≡ j
          → (a : ChunkChangeEvent) → o ≡ some a
          → leb e.source_version a.source_version ≡ false
      older none h same a found = ground (arith, found)
      older (some b) h same a found =
          ap (λ x. leb e.source_version x.source_version) (some_same found)
          ∙ sym (is_stale-lookup e st j (some b.source_version) same h.0)
          ∙ fresh

      go :
          ((e.chunk_id == j) ≡ true) ⊎ ((e.chunk_id == j) ≡ false)
          → Reflects w (after_applied e st) j (newer j o e)
      go (inl same) =
          rw (newer-wins j o e same (older o h ((string_eq.beq_iff e.chunk_id j).0 same))) (
            versions ∙ rw same,
            rows ∙ rw same,
            ap (λ k. works.cached k (dispatch backend e st.world).1)
                  (sym ((string_eq.beq_iff e.chunk_id j).0 same))
                ∙ gone,
          )
      go (inr other) = rw (newer-other j o e other) (
          Reflects-other w st (after_applied e st) j o (versions ∙ rw other) (rows ∙ rw other)
            cached h)

  Reflects-stale :
      (w : World) (st : CdcState World) (e : ChunkChangeEvent) (j : String)
      (o : Option ChunkChangeEvent)
      → Reflects w st j o
      → is_stale backend e st ≡ true
      → newer j o e ≡ o
  unfolding newer
  Reflects-stale w st e j none h stale = elim (Bool-cases (e.chunk_id == j)) [
    | inl same ↦
        ground
          (arith, stale, is_stale-lookup e st j none ((string_eq.beq_iff e.chunk_id j).0 same) h.0)
    | inr other ↦ rw other
  ]
  Reflects-stale w st e j (some a) h stale = elim (Bool-cases (e.chunk_id == j)) [
    | inl same ↦ rw (
      same,
      sym (
            is_stale-lookup e st j (some a.source_version) ((string_eq.beq_iff e.chunk_id j).0 same)
              h.0)
          ∙ stale,
    )
    | inr other ↦ rw other
  ]

  apply-step :
      (max_retries : ℕ) (w : World) (st : CdcState World) (e : ChunkChangeEvent)
      (acc : String → Option ChunkChangeEvent)
      → ((j : String) → Reflects w st j (acc j))
      → (r : Outcome) × (st' : CdcState World) × (apply backend max_retries e st ≡ some (r, st'))
        × ((j : String) → Reflects w st' j (newer j (acc j) e))
  apply-step max_retries w st e acc h = elim (Bool-cases (is_stale backend e st)) [
    | inl stale ↦ (
      skipped,
      record st { notices = st.notices ++ span_skipped e ∷ [] },
      apply-stale max_retries e st stale,
      λ j. rw (Reflects-stale w st e j (acc j) (h j) stale) (
          Reflects-other w st (record st { notices = st.notices ++ span_skipped e ∷ [] }) j (acc j)
            refl refl (λ c. c) (h j)),
    )
    | inr fresh ↦ (
      applied,
      after_applied e st,
      apply-fresh max_retries e st fresh,
      λ j. Reflects-fresh w st e j (acc j) (h j) fresh,
    )
  ]

  run-Reflects :
      (max_retries : ℕ) (w : World) (es : List ChunkChangeEvent) (st : CdcState World)
      (acc : String → Option ChunkChangeEvent)
      → ((j : String) → Reflects w st j (acc j))
      → (st' : CdcState World) × (run backend max_retries es st ≡ some st')
        × ((j : String) → Reflects w st' j (newest_from j (acc j) es))
  unfolding run newest_from
  run-Reflects max_retries w [] st acc h = (st, refl, h)
  run-Reflects max_retries w (e ∷ es) st acc h =
      let (r, st1, done, h1) = apply-step max_retries w st e acc h in
      let (st2, rest, h2) = run-Reflects max_retries w es st1 (λ j. newer j (acc j) e) h1 in
      (st2, rw (run, done) rest, h2)

  -- A stream that starts on no applied version runs to its end. Afterwards the store has, for each
  -- chunk, the row that its newest event leaves, its version is recorded, and no cache entry refers
  -- to it. A chunk without an event keeps its row, and is not cached if it was not.
  pub run_lem :
      (max_retries : ℕ) (es : List ChunkChangeEvent) (st : CdcState World)
      → st.applied_version ≡ []
      → (st' : CdcState World) × (run backend max_retries es st ≡ some st')
        × ((j : String) → Reflects st.world st' j (newest j es))
  unfolding newest lookup
  run_lem max_retries es st fresh =
      run-Reflects max_retries st.world es st (λ _. none) (λ j. (ap (lookup j) fresh, refl, λ c. c))

  -- Two end states with the same versions and rows
  abbrev pub SameView : CdcState World → CdcState World → Type 0
  SameView st st' =
      (j : String)
      → (lookup j st.applied_version ≡ lookup j st'.applied_version)
        × (works.row j st.world ≡ works.row j st'.world)

  Reflects-same :
      (w : World) (st st' : CdcState World) (j : String) (o : Option ChunkChangeEvent)
      → Reflects w st j o
      → Reflects w st' j o
      → (lookup j st.applied_version ≡ lookup j st'.applied_version)
        × (works.row j st.world ≡ works.row j st'.world)
  Reflects-same w st st' j none (v, r, _) (v', r', _) = (v ∙ sym v', r ∙ sym r')
  Reflects-same w st st' j (some e) (v, r, _) (v', r', _) = (v ∙ sym v', r ∙ sym r')

  -- Two streams with the same events, reordered and repeated in any way, leave the same rows
  -- and versions, if two events of a chunk never share a version.
  pub run-SameEvents :
      (max_retries : ℕ) (es es' : List ChunkChangeEvent) (st : CdcState World)
      → st.applied_version ≡ []
      → VersionsUnique es
      → SameEvents es es'
      → (a b : CdcState World) × (run backend max_retries es st ≡ some a)
        × (run backend max_retries es' st ≡ some b)
        × SameView a b
  run-SameEvents max_retries es es' st fresh unique same =
      let (a, done, view) = run_lem max_retries es st fresh in
      let (b, done', view') = run_lem max_retries es' st fresh in
      (
        a,
        b,
        done,
        done',
        λ j. Reflects-same st.world a b j (newest j es) (view j) (
            subst (Reflects st.world b j) (sym (newest-SameEvents j es es' unique same)) (view' j)),
      )
