-- ===== src/Deploy/RateLimiter/Bounds.antt =====
-- The bounds that the limiter keeps.
use mathlib.Core.Path.{subst}
use enterprise_rag_engine.Prelude.{
  ℕ, ◌+◌, ◌≤◌, ◌<◌, String, ◌≡◌, sym, false, none, some, List, [], ◌∷◌, ◌++◌, string_eq, leb, ◌==◌,
  length, length-append, arith, Bool-cases, Option-cases, inl, inr, beq_refl, leb→le,
}
use enterprise_rag_engine.Prelude.Dict.{Dict, lookup, insert, lookup-insert}
use enterprise_rag_engine.Deploy.RateLimiter.{
  Limits, LimiterState, Verdict, recorded, instance_limited, day_capped, rate_limited, is_past,
  drop_old, window_of, count_of, roll_day, prune_instance, prune_window, record_request,
  check_window, check_day, check,
}

length-drop_old : (t : ℕ) (xs : List ℕ) → length (drop_old t xs) ≤ length xs
unfolding drop_old
length-drop_old t [] = omega arith
length-drop_old t (x ∷ xs) = ground (arith, length-drop_old t xs)

module _ (limits : Limits) where
  -- No window and no count is over its limit.
  pub record IsLimited (st : LimiterState) : Type 0 where
    pub windows : (key : String) → length (window_of key st) ≤ limits.per_min
    pub counts : (key : String) → count_of key st ≤ limits.per_day
    pub total : length st.instance_window ≤ limits.instance_per_min

  prune_instance-IsLimited :
      (t : ℕ) (st : LimiterState) → IsLimited st → IsLimited (prune_instance t st)
  unfolding prune_instance
  prune_instance-IsLimited t st h = record {
    windows = h.windows;
    counts = h.counts;
    total = let old = h.total in let le = length-drop_old t st.instance_window in omega arith;
  }

  -- A count that is set keeps every count within a bound.
  count-insert :
      (key j : String) (n bound : ℕ) (d : Dict String ℕ)
      → n ≤ bound
      → (elim (lookup j d) [ none ↦ 0 | some m ↦ m ]) ≤ bound
      → (elim (lookup j (insert key n d)) [ none ↦ 0 | some m ↦ m ]) ≤ bound
  count-insert key j n bound d new old = elim (Bool-cases (key == j)) [
    | inl same ↦ rw (lookup-insert key j n d) (rw same new)
    | inr other ↦ rw (lookup-insert key j n d) (rw other old)
  ]

  window-insert :
      (key j : String) (w : List ℕ) (bound : ℕ) (d : Dict String (List ℕ))
      → length w ≤ bound
      → length (elim (lookup j d) [ none ↦ [] | some m ↦ m ]) ≤ bound
      → length (elim (lookup j (insert key w d)) [ none ↦ [] | some m ↦ m ]) ≤ bound
  window-insert key j w bound d new old = elim (Bool-cases (key == j)) [
    | inl same ↦ rw (lookup-insert key j w d) (rw same new)
    | inr other ↦ rw (lookup-insert key j w d) (rw other old)
  ]

  roll_day-IsLimited :
      (t : ℕ) (key : String) (st : LimiterState) → IsLimited st → IsLimited (roll_day t key st)
  unfolding roll_day
  roll_day-IsLimited t key st h = elim (Option-cases (lookup key st.day_start)) [
    | inl none_yet ↦ rw (roll_day, none_yet) reset
    | inr (start, begun) ↦ elim (Bool-cases (is_past 86400 t start)) [
      | inl past ↦ rw (roll_day, begun, past) reset
      | inr within ↦ rw (roll_day, begun, within) h
    ]
  ]
    where
      reset : IsLimited (record st {
        day_start = insert key t st.day_start;
        day_count = insert key 0 st.day_count;
      })
      reset = record {
        windows = h.windows;
        counts = λ j. count-insert key j 0 limits.per_day st.day_count (omega arith) (h.counts j);
        total = h.total;
      }

  instance-roll_day :
      (t : ℕ) (key : String) (st : LimiterState)
      → (roll_day t key st).instance_window ≡ st.instance_window
  unfolding roll_day
  instance-roll_day t key st = elim (Option-cases (lookup key st.day_start)) [
    | inl none_yet ↦ rw (roll_day, none_yet)
    | inr (start, begun) ↦ elim (Bool-cases (is_past 86400 t start)) [
      | inl past ↦ rw (roll_day, begun, past)
      | inr within ↦ rw (roll_day, begun, within)
    ]
  ]

  prune_window-IsLimited :
      (t : ℕ) (key : String) (st : LimiterState) → IsLimited st → IsLimited (prune_window t key st)
  unfolding prune_window
  prune_window-IsLimited t key st h = record {
    windows = λ j.
        let old = h.windows key in
        let le = length-drop_old t (window_of key st) in
        window-insert key j (drop_old t (window_of key st)) limits.per_min st.window (omega arith)
          (h.windows j);
    counts = h.counts;
    total = h.total;
  }

  record_request-IsLimited :
      (t : ℕ) (key : String) (st : LimiterState)
      → IsLimited st
      → length (window_of key st) < limits.per_min
      → count_of key st < limits.per_day
      → length st.instance_window < limits.instance_per_min
      → IsLimited (record_request t key st)
  unfolding record_request
  record_request-IsLimited t key st h w n i = record {
    windows = λ j.
        let more = length-append (window_of key st) (t ∷ []) in
        window-insert key j (window_of key st ++ t ∷ []) limits.per_min st.window (omega arith)
          (h.windows j);
    counts = λ j.
        count-insert key j (count_of key st + 1) limits.per_day st.day_count (omega arith)
          (h.counts j);
    total = let more = length-append st.instance_window (t ∷ []) in omega arith;
  }

  count-record_request :
      (t : ℕ) (key : String) (st : LimiterState) → 0 < count_of key (record_request t key st)
  unfolding record_request
  count-record_request t key st =
      rw (count_of, lookup-insert key key (count_of key st + 1) st.day_count)
        (rw (beq_refl key) (omega arith))

  leb-false : (a b : ℕ) → leb a b ≡ false → b < a
  leb-false a b h = ground (arith, h)

  -- What a verdict says of the state after it
  abbrev pub Reports : String → LimiterState → Verdict → LimiterState → Type 0
  Reports key st recorded after = 0 < count_of key after
  Reports key st instance_limited after = limits.instance_per_min ≤ length after.instance_window
  Reports key st day_capped after = limits.per_day ≤ count_of key after
  Reports key st rate_limited after = limits.per_min ≤ length (window_of key after)

  abbrev pub Outcome : String → LimiterState → Verdict × LimiterState → Type 0
  Outcome key st (verdict, after) = IsLimited after × Reports key st verdict after

  check_window_lem :
      (t : ℕ) (key : String) (st : LimiterState)
      → IsLimited st
      → count_of key st < limits.per_day
      → length st.instance_window < limits.instance_per_min
      → Outcome key st (check_window limits t key st)
  unfolding check_window prune_window record_request
  check_window_lem t key st h n i =
      let pruned = prune_window-IsLimited t key st h in
      elim (Bool-cases (leb limits.per_min (length (window_of key (prune_window t key st))))) [
        | inl full ↦ rw (check_window, full) (pruned, leb→le _ _ full)
        | inr free ↦
            rw (check_window, free)
              (
                record_request-IsLimited t key (prune_window t key st) pruned (leb-false _ _ free) n
                    i,
                count-record_request t key (prune_window t key st),
              )
      ]

  check_day_lem :
      (t : ℕ) (key : String) (st : LimiterState)
      → IsLimited st
      → length st.instance_window < limits.instance_per_min
      → Outcome key st (check_day limits t key st)
  unfolding check_day
  check_day_lem t key st h i =
      let rolled = roll_day-IsLimited t key st h in
      elim (Bool-cases (leb limits.per_day (count_of key (roll_day t key st)))) [
        | inl capped ↦ rw (check_day, capped) (rolled, leb→le _ _ capped)
        | inr free ↦
            rw (check_day, free)
              (check_window_lem t key (roll_day t key st) rolled (leb-false _ _ free) (
                subst (λ w. length w < limits.instance_per_min) (sym (instance-roll_day t key st))
                  i))
      ]

  -- Whatever `check` answers, afterwards no window of a key has more than `per_min` entries, no
  -- count is over `per_day` and the window of the instance has no more than `instance_per_min`
  -- entries, if it was so before.
  pub check-IsLimited :
      (t : ℕ) (key : String) (st : LimiterState)
      → IsLimited st
      → Outcome key st (check limits t key st)
  unfolding check
  check-IsLimited t key st h =
      let pruned = prune_instance-IsLimited t st h in
      elim (Bool-cases
        (leb limits.instance_per_min (length (prune_instance t st).instance_window))) [
          | inl full ↦ rw (check, full) (pruned, leb→le _ _ full)
          | inr free ↦
              rw (check, free)
                (check_day_lem t key (prune_instance t st) pruned (leb-false _ _ free))
        ]
