-- ===== src/Cdc/Processor/Attempts.antt =====
-- One event: the retries are bounded, and what each outcome leaves behind.
use mathlib.Core.Path.{subst}
use enterprise_rag_engine.Prelude.{
  ℕ, zero, suc, ◌+◌, ◌≤◌, ◌<◌, ◌≡◌, refl, sym, ap, if◌then◌else◌, ◌⊎◌, Bool, true, false, Option,
  none, some, [], ◌∷◌, ◌++◌, string_eq, arith, ltb, Bool-cases, inl, inr,
}
use enterprise_rag_engine.Prelude.Dict.{insert}
use enterprise_rag_engine.Schemas.{Value}
use enterprise_rag_engine.Cdc.Events.{ChangeOp, ChunkChangeEvent, is_delete}
use enterprise_rag_engine.Cdc.Processor.{
  Backend, CdcState, audit_applied, audit_dropped, span_applied, span_dropped, span_skipped,
  Outcome, applied, skipped, raised, row_of, dispatch, attempts, is_stale, apply,
}

module _ {World : Type 0} (backend : Backend World) where
  -- The call of the store that an event asks for, and whether it went through
  abbrev pub WritesAs : ChangeOp → ChunkChangeEvent → World → Bool → World → Type 0
  WritesAs ChangeOp.delete e w done w' = backend.delete_chunk e.chunk_id w ≡ (done, w')
  WritesAs _ e w done w' =
      backend.upsert_chunk (insert "chunk_id" (Value.text e.chunk_id) e.payload) w ≡ (done, w')

  abbrev pub Writes : ChunkChangeEvent → World → Bool → World → Type 0
  Writes e = WritesAs e.op e

  -- An attempt that goes through: the store is written, and then the chunk is invalidated in the
  -- cache.
  abbrev pub Delivers : ChunkChangeEvent → World → World → Type 0
  Delivers e w w' =
      (w₁ : World) × Writes e w true w₁ × (backend.invalidate_chunk e.chunk_id w₁ ≡ (true, w'))

  -- One that does not: the store raises, or the cache does after the store was written.
  abbrev pub Fails : ChunkChangeEvent → World → World → Type 0
  Fails e w w' =
      Writes e w false w'
      ⊎ ((w₁ : World) × Writes e w true w₁ × (backend.invalidate_chunk e.chunk_id w₁ ≡ (false, w')))

  -- So many attempts in a row that do not go through
  abbrev pub FailsTimes : ℕ → ChunkChangeEvent → World → World → Type 0
  FailsTimes zero e w w' = w ≡ w'
  FailsTimes (suc n) e w w' = (w₁ : World) × Fails e w w₁ × FailsTimes n e w₁ w'

  abbrev Ends : ChunkChangeEvent → World → Bool → World → Type 0
  Ends e w true w' = Delivers e w w'
  Ends e w false w' = Fails e w w'

  -- What follows the call of the store
  abbrev invalidated : ChunkChangeEvent → Bool × World → Bool × World
  invalidated e (done, w₁) = if done then backend.invalidate_chunk e.chunk_id w₁ else (false, w₁)

  invalidated-Ends :
      (e : ChunkChangeEvent) (w : World) (p : Bool × World)
      → Writes e w p.0 p.1
      → Ends e w (invalidated e p).0 (invalidated e p).1
  invalidated-Ends e w (false, w₁) h = inl h
  invalidated-Ends e w (true, w₁) h = go (backend.invalidate_chunk e.chunk_id w₁) refl
    where
      go : (q : Bool × World) → backend.invalidate_chunk e.chunk_id w₁ ≡ q → Ends e w q.0 q.1
      go (true, w') called = (w₁, h, called)
      go (false, w') called = inr (w₁, h, called)

  abbrev stored : ChangeOp → ChunkChangeEvent → World → Bool × World
  stored op e w =
      if is_delete op then backend.delete_chunk e.chunk_id w else backend.upsert_chunk (row_of e) w

  stored-WritesAs :
      (op : ChangeOp) (e : ChunkChangeEvent) (w : World)
      → WritesAs op e w (stored op e w).0 (stored op e w).1
  unfolding row_of is_delete
  stored-WritesAs ChangeOp.insert e w = refl
  stored-WritesAs ChangeOp.update e w = refl
  stored-WritesAs ChangeOp.delete e w = refl
  stored-WritesAs ChangeOp.reclassify e w = refl

  dispatch-Ends :
      (e : ChunkChangeEvent) (w : World)
      → Ends e w (dispatch backend e w).0 (dispatch backend e w).1
  unfolding dispatch
  dispatch-Ends e w = invalidated-Ends e w (stored e.op e w) (stored-WritesAs e.op e w)

  dispatch_cases :
      (e : ChunkChangeEvent) (w : World) (b : Bool)
      → (dispatch backend e w).0 ≡ b
      → Ends e w b (dispatch backend e w).1
  dispatch_cases e w b h = subst (λ d. Ends e w d (dispatch backend e w).1) h (dispatch-Ends e w)

  FailsTimes-snoc :
      (n : ℕ) (e : ChunkChangeEvent) (w w₁ w₂ : World)
      → FailsTimes n e w w₁
      → Fails e w₁ w₂
      → FailsTimes (suc n) e w w₂
  FailsTimes-snoc zero e w w₁ w₂ same h = (w₂, subst (λ v. Fails e v w₂) (sym same) h, refl)
  FailsTimes-snoc (suc n) e w w₁ w₂ (v, first, rest) h =
      (v, first, FailsTimes-snoc n e v w₁ w₂ rest h)

  -- What an outcome leaves behind, from the state before the event.
  abbrev pub Leaves : ℕ → ChunkChangeEvent → CdcState World → Outcome → CdcState World → Type 0
  Leaves max_retries e st applied st' =
      (st'.applied_version ≡ insert e.chunk_id e.source_version st.applied_version)
      × ((n : ℕ) × (w : World) × (n ≤ max_retries)
          × FailsTimes n e st.world w
          × Delivers e w st'.world
          × (st'.notices ≡ st.notices ++ audit_applied e n ∷ span_applied e ∷ []))
  Leaves max_retries e st raised st' =
      (st'.applied_version ≡ st.applied_version)
      × FailsTimes (max_retries + 1) e st.world st'.world
      × (st'.notices ≡ st.notices ++ audit_dropped e (max_retries + 1) ∷ span_dropped e ∷ [])
  Leaves max_retries e st skipped st' = ⊥

  abbrev pub LeavesSome :
      ℕ → ChunkChangeEvent → CdcState World → Option (Outcome × CdcState World) → Type 0
  LeavesSome max_retries e st none = ⊥
  LeavesSome max_retries e st (some (r, st')) = Leaves max_retries e st r st'

  -- The attempts from the world after those that failed before
  attempts_lem :
      (fuel max_retries attempt : ℕ) (e : ChunkChangeEvent) (st : CdcState World) (w : World)
      → attempt + fuel ≡ max_retries + 1
      → 0 < fuel
      → FailsTimes attempt e st.world w
      → LeavesSome max_retries e st
          (attempts backend fuel max_retries attempt e (record st { world = w }))
  unfolding attempts
  attempts_lem zero max_retries attempt e st w h pos failed = absurd (omega arith)
  attempts_lem (suc fuel) max_retries attempt e st w h pos failed =
      elim (Bool-cases (dispatch backend e w).0) [
        | inl done ↦
            rw done (refl, (attempt, w, omega arith, failed, dispatch_cases e w true done, refl))
        | inr undone ↦
            let more : FailsTimes (suc attempt) e st.world (dispatch backend e w).1 =
              FailsTimes-snoc attempt e st.world w _ failed (dispatch_cases e w false undone) in
            let next : suc attempt ≡ attempt + 1 = omega arith in
            let all : FailsTimes (attempt + 1) e st.world (dispatch backend e w).1 =
              subst (λ n. FailsTimes n e st.world (dispatch backend e w).1) next more in
            elim (Bool-cases (ltb max_retries (attempt + 1))) [
              | inl last ↦
                  let same : attempt ≡ max_retries = ground (arith, last, h) in
                  rw (undone, last)
                    (
                      refl,
                      subst (λ n. FailsTimes (n + 1) e st.world (dispatch backend e w).1) same all,
                      ap (λ n. st.notices ++ audit_dropped e (n + 1) ∷ span_dropped e ∷ []) same,
                    )
              | inr left ↦
                  rw (undone, left)
                    (attempts_lem fuel max_retries (attempt + 1) e st (dispatch backend e w).1
                      (omega arith) (ground (arith, left, h)) all)
            ]
      ]

  -- What one event leaves behind: a stale one nothing but its span.
  abbrev pub Handles :
      ℕ → ChunkChangeEvent → CdcState World → Option (Outcome × CdcState World) → Type 0
  Handles max_retries e st result =
      (is_stale backend e st ≡ true
        → result ≡ some (skipped, record st { notices = st.notices ++ span_skipped e ∷ [] }))
      × (is_stale backend e st ≡ false → LeavesSome max_retries e st result)

  -- `apply` always ends. A stale or replayed event leaves the store, the cache and the versions as
  -- they are. Another one is either applied: after at most `max_retries` attempts that fail, one
  -- writes the event to the store and then invalidates its chunk in the cache, the version is
  -- recorded and the audit names the number of failures. Or it is raised: `max_retries + 1` attempts
  -- have failed, at the store or at the cache, no version is recorded and the drop is in the audit.
  -- Nothing else changes the store or the cache.
  pub apply-Handles :
      (max_retries : ℕ) (e : ChunkChangeEvent) (st : CdcState World)
      → Handles max_retries e st (apply backend max_retries e st)
  unfolding apply
  apply-Handles max_retries e st = (
    λ stale. rw stale,
    λ fresh. rw fresh (
        attempts_lem (suc max_retries) max_retries 0 e st st.world (omega arith) (omega arith)
          refl),
  )
