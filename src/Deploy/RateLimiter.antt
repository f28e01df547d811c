-- ===== src/Deploy/RateLimiter.antt =====
-- `RateLimiter` of src/rag_engine/deploy/guards.py. Times are readings of the clock in nanoseconds.
pub mod Bounds
pub mod Log
pub mod Sliding
pub mod Decides
use enterprise_rag_engine.Prelude.{
  ℕ, ◌+◌, ◌-◌, ◌*◌, ◌^◌, String, Bool, Option, none, some, List, [], ◌∷◌, ◌++◌, string_eq, leb,
  if◌then◌else◌, length,
}
use enterprise_rag_engine.Prelude.Dict.{Dict, lookup, insert}

pub record Limits : Type 0 where
  pub per_min : ℕ
  pub per_day : ℕ
  pub instance_per_min : ℕ

-- `_window`, `_day_count`, `_day_start` and `_instance_window`
pub record LimiterState : Type 0 where
  pub window : Dict String (List ℕ)
  pub day_count : Dict String ℕ
  pub day_start : Dict String ℕ
  pub instance_window : List ℕ

-- The request was recorded, or `RateLimitExceeded` was raised for one of its three reasons.
pub data Verdict : Type 0 where
  recorded instance_limited day_capped rate_limited : Verdict

abbrev pub second : ℕ
second = 1000000000

-- `t - earlier >= seconds`
abbrev pub is_past : ℕ → ℕ → ℕ → Bool
is_past seconds t earlier = leb (seconds * second) (t - earlier)

-- `while w and (t - w[0]) >= 60: w.popleft()`
unfoldable pub drop_old : ℕ → List ℕ → List ℕ
drop_old t [] = []
drop_old t (x ∷ xs) = let rest = drop_old t xs in if is_past 60 t x then rest else x ∷ xs

-- A `defaultdict`
abbrev pub window_of : String → LimiterState → List ℕ
window_of key st = elim (lookup key st.window) [ none ↦ [] | some w ↦ w ]

abbrev pub count_of : String → LimiterState → ℕ
count_of key st = elim (lookup key st.day_count) [ none ↦ 0 | some n ↦ n ]

-- The day of a key starts anew after 24 hours.
unfoldable pub roll_day : ℕ → String → LimiterState → LimiterState
roll_day t key st =
    let reset = record st {
      day_start = insert key t st.day_start;
      day_count = insert key 0 st.day_count;
    } in
    elim (lookup key st.day_start) [
      | none ↦ reset
      | some start ↦ if is_past 86400 t start then reset else st
    ]

unfoldable pub prune_instance : ℕ → LimiterState → LimiterState
unfolding drop_old
prune_instance t st = record st { instance_window = drop_old t st.instance_window }

unfoldable pub prune_window : ℕ → String → LimiterState → LimiterState
unfolding drop_old
prune_window t key st = record st { window = insert key (drop_old t (window_of key st)) st.window }

unfoldable pub record_request : ℕ → String → LimiterState → LimiterState
record_request t key st = record st {
  window = insert key (window_of key st ++ t ∷ []) st.window;
  day_count = insert key (count_of key st + 1) st.day_count;
  instance_window = st.instance_window ++ t ∷ [];
}

module _ (limits : Limits) where
  -- From the window of the key on
  unfoldable pub check_window : ℕ → String → LimiterState → Verdict × LimiterState
  unfolding prune_window record_request
  check_window t key st =
      let pruned = prune_window t key st in
      if leb limits.per_min (length (window_of key pruned))
      then (rate_limited, pruned)
      else (recorded, record_request t key pruned)

  -- From the cap of the day on
  unfoldable pub check_day : ℕ → String → LimiterState → Verdict × LimiterState
  unfolding roll_day check_window
  check_day t key st =
      let rolled = roll_day t key st in
      if leb limits.per_day (count_of key rolled)
      then (day_capped, rolled)
      else check_window t key rolled

  -- `check` at the time `t`
  unfoldable pub check : ℕ → String → LimiterState → Verdict × LimiterState
  unfolding prune_instance check_day
  check t key st =
      let pruned = prune_instance t st in
      if leb limits.instance_per_min (length pruned.instance_window)
      then (instance_limited, pruned)
      else check_day t key pruned
