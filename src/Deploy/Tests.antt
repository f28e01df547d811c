-- ===== src/Deploy/Tests.antt =====
-- The limiter at a few requests, and the check of a configuration with one live credential.
use enterprise_rag_engine.Prelude.{
  ◌*◌, String, ◌≡◌, refl, ◌==◌, if◌then◌else◌, [], ◌∷◌, string_eq, arith,
}
use enterprise_rag_engine.Prelude.Dict.{lookup, insert}
use enterprise_rag_engine.Deploy.RateLimiter.{
  Limits, LimiterState, Verdict, recorded, rate_limited, second, check, check_day, check_window,
  drop_old, roll_day, prune_instance, prune_window,
}
use enterprise_rag_engine.Deploy.Synthetic.{DemoConfig}
use enterprise_rag_engine.Deploy.RateLimiter.Bounds.{IsLimited}
use enterprise_rag_engine.Deploy.RateLimiter.Log.{times, all_times}
use enterprise_rag_engine.Deploy.RateLimiter.Sliding.{Agrees}
use enterprise_rag_engine.Deploy.RateLimiter.Decides.{logged, HoldsLimits, check_lem}

abbrev limits : Limits
limits = record { per_min = 2; per_day = 100; instance_per_min = 10 }

abbrev busy : LimiterState
busy = record {
  window = ("u1", 5 * second ∷ 9 * second ∷ []) ∷ [];
  day_count = ("u1", 2) ∷ [];
  day_start = ("u1", 5 * second) ∷ [];
  instance_window = 5 * second ∷ 9 * second ∷ [];
}

check_refused : (check limits (10 * second) "u1" busy).0 ≡ rate_limited
unfolding check check_day check_window drop_old roll_day prune_instance prune_window lookup insert
check_refused = refl

check_later : (check limits (66 * second) "u1" busy).0 ≡ recorded
unfolding check check_day check_window drop_old roll_day prune_instance prune_window lookup insert
check_later = refl

abbrev start : LimiterState
start = record { window = []; day_count = []; day_start = []; instance_window = [] }

start-IsLimited : IsLimited limits start
unfolding lookup
start-IsLimited = record {
  windows = λ key. omega arith;
  counts = λ key. omega arith;
  total = omega arith;
}

start-Agrees : Agrees 0 [] start
unfolding lookup times all_times
start-Agrees = record {
  sorted = tt;
  late = tt;
  windows = λ key. ([], refl, tt);
  total = ([], refl, tt);
  days = λ key. (refl, refl);
}

abbrev first : Verdict × LimiterState
first = check limits (5 * second) "u1" start

first_lem : HoldsLimits limits (5 * second) "u1" [] first
first_lem = check_lem limits 0 (5 * second) "u1" [] start (omega arith) start-Agrees start-IsLimited

check_lem_example :
    HoldsLimits limits
      (9 * second)
      "u1"
      (logged first.0 (5 * second) "u1" [])
      (check limits (9 * second) "u1" first.1)
check_lem_example =
    check_lem limits (5 * second) (9 * second) "u1" (logged first.0 (5 * second) "u1" []) first.1
      (omega arith) first_lem.0 first_lem.1

abbrev demo : DemoConfig
demo = record {
  demo_profile = "synthetic";
  store_backend = "memory";
  surreal_dsn = "";
  selfrag_grader = "fake";
  sql_generator = "template";
}

abbrev getenv : String → String
getenv name = if name == "GROQ_API_KEY" then "secret" else ""
