-- ===== src/Deploy/RateLimiter/Sliding.antt =====
-- The limiter against the requests that it has recorded.
use mathlib.Core.Path.{subst}
use mathlib.Core.List.{append-nil, append_assoc}
use enterprise_rag_engine.Prelude.{
  ℕ, ◌+◌, ◌≤◌, String, ◌≡◌, refl, sym, ap, ◌∙◌, Bool, true, false, Option, none, some, List, [],
  ◌∷◌, ◌++◌, string_eq, ◌==◌, if◌then◌else◌, length, length-append, keep, keep-append, All,
  All-append, arith, leb, ltb, Bool-cases, Option-cases, inl, inr, beq_refl,
}
use enterprise_rag_engine.Prelude.Dict.{Dict, lookup, insert, lookup-insert}
use enterprise_rag_engine.Deploy.RateLimiter.{
  LimiterState, is_past, drop_old, window_of, count_of, roll_day, prune_instance, prune_window,
  record_request,
}
use enterprise_rag_engine.Deploy.RateLimiter.Log.{
  Log, all_times, times, recent, IsSorted, IsTail, IsTail-later, drop_old-IsTail, append-IsTail,
  recent-drop_old, all_times-append, times-append, All-times, times-IsSorted, append-IsSorted,
}

-- The requests since the day of a key began, at most, and at least
abbrev pub after_start : ℕ → List ℕ → ℕ
after_start start xs = length (keep (ltb start) xs)

abbrev pub from_start : ℕ → List ℕ → ℕ
from_start start xs = length (keep (leb start) xs)

-- A count is that of the last of the times, from the start of the day on.
abbrev pub IsDay : ℕ → Option ℕ → List ℕ → ℕ → Type 0
IsDay t none xs n = (xs ≡ []) × (n ≡ 0)
IsDay t (some start) xs n =
    (start ≤ t)
    × ((old : List ℕ) × (day : List ℕ) × (xs ≡ old ++ day)
        × (length day ≡ n)
        × All (λ x. x ≤ start) old
        × All (λ x. start ≤ x) day)

keep-none_after : (start : ℕ) (xs : List ℕ) → All (λ x. x ≤ start) xs → keep (ltb start) xs ≡ []
unfolding keep
keep-none_after start [] h = refl
keep-none_after start (x ∷ xs) (le, h) =
    let old : ltb start x ≡ false = ground (arith, le) in rw old (keep-none_after start xs h)

keep_since : (start : ℕ) (xs : List ℕ) → All (λ x. start ≤ x) xs → keep (leb start) xs ≡ xs
unfolding keep
keep_since start [] h = refl
keep_since start (x ∷ xs) (le, h) =
    let new : leb start x ≡ true = ground (arith, le) in
    rw new (ap (λ ys. x ∷ ys) (keep_since start xs h))

keep-length : (p : ℕ → Bool) (xs : List ℕ) → length (keep p xs) ≤ length xs
unfolding keep
keep-length p [] = omega arith
keep-length p (x ∷ xs) = ground (arith, keep-length p xs)

pub after_start-le :
    (t start n : ℕ) (xs : List ℕ) → IsDay t (some start) xs n → after_start start xs ≤ n
after_start-le t start n xs (le, (old, day, e, size, before, since)) =
    let short = keep-length (ltb start) day in
    let same : keep (ltb start) xs ≡ keep (ltb start) day =
      ap (keep (ltb start)) e
      ∙ keep-append (ltb start) old day
      ∙ ap (λ ys. ys ++ keep (ltb start) day) (keep-none_after start old before) in
    rw same (omega (arith, short, size))

pub from_start-ge :
    (t start n : ℕ) (xs : List ℕ) → IsDay t (some start) xs n → n ≤ from_start start xs
from_start-ge t start n xs (le, (old, day, e, size, before, since)) =
    let parts = length-append (keep (leb start) old) (keep (leb start) day) in
    let all : length (keep (leb start) day) ≡ length day = ap length (keep_since start day since) in
    let same = keep-append (leb start) old day in rw e (rw same (omega (arith, parts, all, size)))

IsDay-along :
    (t : ℕ) (xs : List ℕ) {o o' : Option ℕ} {n n' : ℕ}
    → o ≡ o'
    → n ≡ n'
    → IsDay t o' xs n'
    → IsDay t o xs n
IsDay-along t xs {o' = o'} {n = n} eo en h =
    subst (λ p. IsDay t p xs n) (sym eo) (subst (λ m. IsDay t o' xs m) (sym en) h)

count-insert_eq :
    (key j : String) (n : ℕ) (d : Dict String ℕ)
    → (elim (lookup j (insert key n d)) [ none ↦ 0 | some m ↦ m ])
      ≡ (if key == j then n else (elim (lookup j d) [ none ↦ 0 | some m ↦ m ]))
count-insert_eq key j n d = elim (Bool-cases (key == j)) [
  | inl same ↦ rw (lookup-insert key j n d) (rw same refl)
  | inr other ↦ rw (lookup-insert key j n d) (rw other refl)
]

window-insert_eq :
    (key j : String) (w : List ℕ) (d : Dict String (List ℕ))
    → (elim (lookup j (insert key w d)) [ none ↦ [] | some m ↦ m ])
      ≡ (if key == j then w else (elim (lookup j d) [ none ↦ [] | some m ↦ m ]))
window-insert_eq key j w d = elim (Bool-cases (key == j)) [
  | inl same ↦ rw (lookup-insert key j w d) (rw same refl)
  | inr other ↦ rw (lookup-insert key j w d) (rw other refl)
]

IsDay-later :
    (s t : ℕ) (o : Option ℕ) (xs : List ℕ) (n : ℕ) → s ≤ t → IsDay s o xs n → IsDay t o xs n
IsDay-later s t none xs n le h = h
IsDay-later s t (some start) xs n le (before, h) = (omega (arith, le, before), h)

All-le_later : (s t : ℕ) (xs : List ℕ) → s ≤ t → All (λ x. x ≤ s) xs → All (λ x. x ≤ t) xs
All-le_later s t [] le h = tt
All-le_later s t (x ∷ xs) le (first, h) = (omega (arith, le, first), All-le_later s t xs le h)

-- The state of a limiter tells what it has recorded up to a time.
pub record Agrees (t : ℕ) (log : Log) (st : LimiterState) : Type 0 where
  pub sorted : IsSorted (all_times log)
  pub late : All (λ x. x ≤ t) (all_times log)
  pub windows : (key : String) → IsTail t (times key log) (window_of key st)
  pub total : IsTail t (all_times log) st.instance_window
  pub days : (key : String) → IsDay t (lookup key st.day_start) (times key log) (count_of key st)

pub Agrees-later :
    (s t : ℕ) (log : Log) (st : LimiterState) → s ≤ t → Agrees s log st → Agrees t log st
Agrees-later s t log st le h = record {
  sorted = h.sorted;
  late = All-le_later s t (all_times log) le h.late;
  windows = λ key. IsTail-later s t (times key log) (window_of key st) le (h.windows key);
  total = IsTail-later s t (all_times log) st.instance_window le h.total;
  days = λ key. IsDay-later s t (lookup key st.day_start) _ _ le (h.days key);
}

pub prune_instance-Agrees :
    (t : ℕ) (log : Log) (st : LimiterState) → Agrees t log st → Agrees t log (prune_instance t st)
unfolding prune_instance
prune_instance-Agrees t log st h = record {
  sorted = h.sorted;
  late = h.late;
  windows = h.windows;
  total = drop_old-IsTail t (all_times log) st.instance_window h.total;
  days = h.days;
}

pub roll_day-Agrees :
    (t : ℕ) (key : String) (log : Log) (st : LimiterState)
    → Agrees t log st
    → Agrees t log (roll_day t key st)
      × ((start : ℕ) × (lookup key (roll_day t key st).day_start ≡ some start)
          × (is_past 86400 t start ≡ false))
      × ((roll_day t key st).instance_window ≡ st.instance_window)
unfolding roll_day
roll_day-Agrees t key log st h = elim (Option-cases (lookup key st.day_start)) [
  | inl none_yet ↦ rw (roll_day, none_yet) reset
  | inr (start, begun) ↦ elim (Bool-cases (is_past 86400 t start)) [
    | inl past ↦ rw (roll_day, begun, past) reset
    | inr within ↦ rw (roll_day, begun, within) (h, (start, begun, within), refl)
  ]
]
  where
    fresh : LimiterState
    fresh = record st {
      day_start = insert key t st.day_start;
      day_count = insert key 0 st.day_count;
    }

    day : (j : String) → IsDay t (lookup j fresh.day_start) (times j log) (count_of j fresh)
    day j =
        IsDay-along t (times j log) (lookup-insert key j t st.day_start)
          (count-insert_eq key j 0 st.day_count)
          (elim (Bool-cases (key == j)) [
            | inl same ↦ rw same (
              omega arith,
              (
                times j log,
                [],
                sym (append-nil (times j log)),
                refl,
                All-times (λ x. x ≤ t) j log h.late,
                tt,
              ),
            )
            | inr other ↦ rw other (h.days j)
          ])

    reset :
        Agrees t log fresh
        × ((start : ℕ) × (lookup key fresh.day_start ≡ some start)
            × (is_past 86400 t start ≡ false))
        × (fresh.instance_window ≡ st.instance_window)
    reset = (
      record { sorted = h.sorted; late = h.late; windows = h.windows; total = h.total; days = day },
      (t, lookup-insert key key t st.day_start ∙ rw (beq_refl key) refl, ground arith),
      refl,
    )

IsTail-along : (t : ℕ) (xs : List ℕ) {w w' : List ℕ} → w ≡ w' → IsTail t xs w' → IsTail t xs w
IsTail-along t xs e h = subst (IsTail t xs) (sym e) h

pub prune_window-Agrees :
    (t : ℕ) (key : String) (log : Log) (st : LimiterState)
    → Agrees t log st
    → Agrees t log (prune_window t key st)
      × (length (window_of key (prune_window t key st)) ≡ recent t (times key log))
unfolding prune_window
prune_window-Agrees t key log st h =
    let pruned = drop_old t (window_of key st) in
    (
      record {
        sorted = h.sorted;
        late = h.late;
        windows = λ j.
            IsTail-along t (times j log) (window-insert_eq key j pruned st.window)
              (elim (Bool-cases (key == j)) [
                | inl same ↦ rw same (
                    subst (λ i. IsTail t (times i log) pruned) ((string_eq.beq_iff key j).0 same)
                      (drop_old-IsTail t (times key log) (window_of key st) (h.windows key)))
                | inr other ↦ rw other (h.windows j)
              ]);
        total = h.total;
        days = h.days;
      },
      ap length (window-insert_eq key key pruned st.window)
          ∙ rw (beq_refl key) (
              sym (
                recent-drop_old t (times key log) (window_of key st)
                  (times-IsSorted key log h.sorted) (h.windows key))),
    )

pub record_request-Agrees :
    (t : ℕ) (key : String) (start : ℕ) (log : Log) (st : LimiterState)
    → lookup key st.day_start ≡ some start
    → Agrees t log st
    → Agrees t (log ++ (t, key) ∷ []) (record_request t key st)
unfolding record_request
record_request-Agrees t key start log st begun h = record {
  sorted = rw (all_times-append log t key) (append-IsSorted t (all_times log) h.sorted h.late);
  late =
      rw (all_times-append log t key)
        (All-append (λ x. x ≤ t) (all_times log) (t ∷ []) h.late (omega arith, tt));
  windows = λ j. IsTail-along t _ (window-insert_eq key j (window_of key st ++ t ∷ []) st.window) (
      rw (times-append j log t key) (elim (Bool-cases (key == j)) [
        | inl same ↦ rw same (
            subst (λ i. IsTail t (times i log ++ t ∷ []) (window_of key st ++ t ∷ []))
              ((string_eq.beq_iff key j).0 same)
              (append-IsTail t t (times key log) (window_of key st) (h.windows key)))
        | inr other ↦ rw other (h.windows j)
      ]));
  total =
      rw (all_times-append log t key)
        (append-IsTail t t (all_times log) st.instance_window h.total);
  days = λ j. IsDay-along t _ refl (count-insert_eq key j (count_of key st + 1) st.day_count) (
      rw (times-append j log t key) (elim (Bool-cases (key == j)) [
        | inl same ↦ rw same (
            subst
              (λ i. IsDay t (lookup i st.day_start) (times i log ++ t ∷ []) (count_of key st + 1))
              ((string_eq.beq_iff key j).0 same)
              (IsDay-along t _ begun refl (
                one_more
                  (subst (λ o. IsDay t o (times key log) (count_of key st)) begun (h.days key)))))
        | inr other ↦ rw other (h.days j)
      ]));
}
  where
    one_more :
        IsDay t (some start) (times key log) (count_of key st)
        → IsDay t (some start) (times key log ++ t ∷ []) (count_of key st + 1)
    one_more (le, (old, day, e, size, before, since)) = (
      le,
      (
        old,
        day ++ t ∷ [],
        ap (λ ys. ys ++ t ∷ []) e ∙ append_assoc old day (t ∷ []),
        length-append day (t ∷ []) ∙ ap (λ n. n + 1) size,
        before,
        All-append (λ x. start ≤ x) day (t ∷ []) since (le, tt),
      ),
    )
