-- ===== src/Deploy/RateLimiter/Decides.antt =====
-- What `check` decides, in terms of the requests that were recorded.
use mathlib.Core.Path.{subst}
use enterprise_rag_engine.Prelude.{
  ℕ, ◌≤◌, ◌<◌, String, ◌≡◌, false, some, [], ◌∷◌, ◌++◌, string_eq, length, arith, leb, leb→le,
  Bool-cases, inl, inr,
}
use enterprise_rag_engine.Prelude.Dict.{lookup}
use enterprise_rag_engine.Deploy.RateLimiter.{
  Limits, LimiterState, Verdict, recorded, instance_limited, day_capped, rate_limited, is_past,
  window_of, count_of, roll_day, prune_instance, prune_window, record_request, check_window,
  check_day, check,
}
use enterprise_rag_engine.Deploy.RateLimiter.Bounds.{IsLimited, check-IsLimited}
use enterprise_rag_engine.Deploy.RateLimiter.Log.{
  Log, all_times, times, recent, recent-le, recent-drop_old,
}
use enterprise_rag_engine.Deploy.RateLimiter.Sliding.{
  after_start, from_start, IsDay, after_start-le, from_start-ge, Agrees, Agrees-later,
  prune_instance-Agrees, roll_day-Agrees, prune_window-Agrees, record_request-Agrees,
}

-- The log after a verdict
abbrev pub logged : Verdict → ℕ → String → Log → Log
logged recorded t key log = log ++ (t, key) ∷ []
logged _ t key log = log

leb-above : (a b : ℕ) → leb a b ≡ false → b < a
leb-above a b h = ground (arith, h)

module _ (limits : Limits) where
  -- Of the recorded requests, no key has more than `per_min` recent ones, nor more than `per_day`
  -- since its day began, and there are no more than `instance_per_min` recent ones.
  pub record IsBounded (t : ℕ) (log : Log) (st : LimiterState) : Type 0 where
    pub per_key : (key : String) → recent t (times key log) ≤ limits.per_min
    pub per_day :
        (key : String) (start : ℕ)
        → lookup key st.day_start ≡ some start
        → after_start start (times key log) ≤ limits.per_day
    pub instance : recent t (all_times log) ≤ limits.instance_per_min

  Agrees-IsBounded :
      (t : ℕ) (log : Log) (st : LimiterState)
      → Agrees t log st
      → IsLimited limits st
      → IsBounded t log st
  Agrees-IsBounded t log st h l = record {
    per_key = λ key.
        let le = recent-le t (times key log) (window_of key st) (h.windows key) in
        let limit = l.windows key in omega (arith, le, limit);
    per_day = λ key start begun.
        let day = subst (λ o. IsDay t o (times key log) (count_of key st)) begun (h.days key) in
        let le = after_start-le t start (count_of key st) (times key log) day in
        let limit = l.counts key in omega (arith, le, limit);
    instance =
        let le = recent-le t (all_times log) st.instance_window h.total in
        let limit = l.total in omega (arith, le, limit);
  }

  -- The day of the key, which began less than 24 hours ago
  abbrev pub InDay : ℕ → String → LimiterState → (ℕ → Type 0) → Type 0
  InDay t key after P =
      (start : ℕ) × (lookup key after.day_start ≡ some start)
      × (is_past 86400 t start ≡ false)
      × P start

  -- What a verdict says of the requests that were recorded before
  abbrev pub Reports : ℕ → String → Log → Verdict → LimiterState → Type 0
  Reports t key log recorded after =
      (recent t (times key log) < limits.per_min)
      × (recent t (all_times log) < limits.instance_per_min)
      × InDay t key after (λ start. after_start start (times key log) < limits.per_day)
  Reports t key log instance_limited after = limits.instance_per_min ≤ recent t (all_times log)
  Reports t key log day_capped after =
      InDay t key after (λ start. limits.per_day ≤ from_start start (times key log))
  Reports t key log rate_limited after = limits.per_min ≤ recent t (times key log)

  abbrev pub Decides : ℕ → String → Log → Verdict × LimiterState → Type 0
  Decides t key log (verdict, after) =
      Agrees t (logged verdict t key log) after × Reports t key log verdict after

  check_window-Decides :
      (t : ℕ) (key : String) (start : ℕ) (log : Log) (st : LimiterState)
      → lookup key st.day_start ≡ some start
      → is_past 86400 t start ≡ false
      → count_of key st < limits.per_day
      → recent t (all_times log) < limits.instance_per_min
      → Agrees t log st
      → Decides t key log (check_window limits t key st)
  unfolding check_window prune_window record_request
  check_window-Decides t key start log st begun within few total h =
      let (pruned, size) = prune_window-Agrees t key log st h in
      elim (Bool-cases (leb limits.per_min (length (window_of key (prune_window t key st))))) [
        | inl full ↦
            let reached = leb→le _ _ full in
            rw (check_window, full) (pruned, omega (arith, reached, size))
        | inr free ↦
            let room = leb-above _ _ free in
            let day = subst (λ o. IsDay t o (times key log) (count_of key st)) begun (h.days key) in
            let used = after_start-le t start (count_of key st) (times key log) day in
            rw (check_window, free)
              (
                record_request-Agrees t key start log (prune_window t key st) begun pruned,
                (
                  omega (arith, room, size),
                  total,
                  (start, begun, within, omega (arith, used, few)),
                ),
              )
      ]

  check_day-Decides :
      (t : ℕ) (key : String) (log : Log) (st : LimiterState)
      → recent t (all_times log) < limits.instance_per_min
      → Agrees t log st
      → Decides t key log (check_day limits t key st)
  unfolding check_day
  check_day-Decides t key log st total h =
      let (rolled, (start, begun, within), same) = roll_day-Agrees t key log st h in
      elim (Bool-cases (leb limits.per_day (count_of key (roll_day t key st)))) [
        | inl capped ↦
            let day =
              subst (λ o. IsDay t o (times key log) (count_of key (roll_day t key st))) begun
                (rolled.days key) in
            let counted = from_start-ge t start _ (times key log) day in
            let reached = leb→le _ _ capped in
            rw (check_day, capped) (rolled, (start, begun, within, omega (arith, counted, reached)))
        | inr free ↦
            rw (check_day, free)
              (check_window-Decides t key start log (roll_day t key st) begun within
                (leb-above _ _ free) total rolled)
      ]

  check-Agrees :
      (t : ℕ) (key : String) (log : Log) (st : LimiterState)
      → Agrees t log st
      → Decides t key log (check limits t key st)
  unfolding check prune_instance
  check-Agrees t key log st h =
      let pruned = prune_instance-Agrees t log st h in
      let size = recent-drop_old t (all_times log) st.instance_window h.sorted h.total in
      elim (Bool-cases
        (leb limits.instance_per_min (length (prune_instance t st).instance_window))) [
          | inl full ↦
              let reached = leb→le _ _ full in
              rw (check, full) (pruned, omega (arith, reached, size))
          | inr free ↦
              let room = leb-above _ _ free in
              rw (check, free)
                (check_day-Decides t key log (prune_instance t st) (omega (arith, room, size))
                  pruned)
        ]

  abbrev pub HoldsLimits : ℕ → String → Log → Verdict × LimiterState → Type 0
  HoldsLimits t key log (verdict, after) =
      Agrees t (logged verdict t key log) after
      × IsLimited limits after
      × IsBounded t (logged verdict t key log) after
      × Reports t key log verdict after

  -- The state of the limiter goes on telling the log of the requests that were recorded, oldest
  -- first, if the clock does not go back. In the log no key ever has more than `per_min` requests
  -- less than 60 seconds old, or more than `per_day` after the start of its day, and there are never
  -- more than `instance_per_min` less than 60 seconds old. A request is recorded only below all
  -- three limits, in a day that began less than 24 hours ago, and one that is refused is at or over
  -- the limit that the refusal names.
  pub check_lem :
      (t₀ t : ℕ) (key : String) (log : Log) (st : LimiterState)
      → t₀ ≤ t
      → Agrees t₀ log st
      → IsLimited limits st
      → HoldsLimits t key log (check limits t key st)
  check_lem t₀ t key log st le h limited =
      let (agrees, reports) = check-Agrees t key log st (Agrees-later t₀ t log st le h) in
      let (kept, _) = check-IsLimited limits t key st limited in
      (agrees, kept, Agrees-IsBounded t _ _ agrees kept, reports)
