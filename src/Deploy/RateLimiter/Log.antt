-- ===== src/Deploy/RateLimiter/Log.antt =====
-- The requests that a limiter has recorded, oldest first, and how a window tells them.
use mathlib.Core.Path.{subst}
use mathlib.Core.List.{append_assoc}
use enterprise_rag_engine.Prelude.{
  ℕ, ◌≤◌, String, ◌≡◌, refl, sym, ap, ◌∙◌, Bool, true, false, not, List, [], ◌∷◌, ◌++◌, string_eq,
  ◌==◌, if◌then◌else◌, length, keep, keep-append, All, All-append, arith, Bool-cases, inl, inr,
}
use enterprise_rag_engine.Deploy.RateLimiter.{is_past, drop_old}

abbrev pub Log : Type 0
Log = List (ℕ × String)

-- The times of all the recorded requests
unfoldable pub all_times : Log → List ℕ
all_times [] = []
all_times ((x, k) ∷ log) = x ∷ all_times log

-- Those of a key
unfoldable pub times : String → Log → List ℕ
times key [] = []
times key ((x, k) ∷ log) = let rest = times key log in if k == key then x ∷ rest else rest

-- Less than 60 seconds ago
abbrev pub is_recent : ℕ → ℕ → Bool
is_recent t x = not (is_past 60 t x)

-- The number of the recent ones
abbrev pub recent : ℕ → List ℕ → ℕ
recent t xs = length (keep (is_recent t) xs)

abbrev pub IsSorted : List ℕ → Type 0
IsSorted [] = Unit
IsSorted (x ∷ xs) = All (λ y. x ≤ y) xs × IsSorted xs

-- A window holds the last of the times, and the others are past.
abbrev pub IsTail : ℕ → List ℕ → List ℕ → Type 0
IsTail t xs w = (old : List ℕ) × (xs ≡ old ++ w) × All (λ x. is_past 60 t x ≡ true) old

pub past_later : (s t x : ℕ) → s ≤ t → is_past 60 s x ≡ true → is_past 60 t x ≡ true
past_later s t x le h = ground (arith, le, h)

pub All-past_later :
    (s t : ℕ) (xs : List ℕ)
    → s ≤ t
    → All (λ x. is_past 60 s x ≡ true) xs
    → All (λ x. is_past 60 t x ≡ true) xs
All-past_later s t [] le h = tt
All-past_later s t (x ∷ xs) le (first, h) = (past_later s t x le first, All-past_later s t xs le h)

pub IsTail-later : (s t : ℕ) (xs w : List ℕ) → s ≤ t → IsTail s xs w → IsTail t xs w
IsTail-later s t xs w le (old, e, h) = (old, e, All-past_later s t old le h)

-- What is dropped from a window is past.
drop_old_split :
    (t : ℕ) (w : List ℕ)
    → (gone : List ℕ) × (w ≡ gone ++ drop_old t w) × All (λ x. is_past 60 t x ≡ true) gone
unfolding drop_old
drop_old_split t [] = ([], refl, tt)
drop_old_split t (x ∷ xs) = elim (Bool-cases (is_past 60 t x)) [
  | inl past ↦
      let (gone, e, h) = drop_old_split t xs in rw past (x ∷ gone, ap (λ ys. x ∷ ys) e, (past, h))
  | inr now ↦ rw now ([], refl, tt)
]

pub drop_old-IsTail : (t : ℕ) (xs w : List ℕ) → IsTail t xs w → IsTail t xs (drop_old t w)
drop_old-IsTail t xs w (old, e, h) =
    let (gone, e', h') = drop_old_split t w in
    (
      old ++ gone,
      e ∙ ap (λ ys. old ++ ys) e' ∙ sym (append_assoc old gone (drop_old t w)),
      All-append (λ x. is_past 60 t x ≡ true) old gone h h',
    )

pub append-IsTail :
    (t s : ℕ) (xs w : List ℕ) → IsTail t xs w → IsTail t (xs ++ s ∷ []) (w ++ s ∷ [])
append-IsTail t s xs w (old, e, h) =
    (old, ap (λ ys. ys ++ s ∷ []) e ∙ append_assoc old w (s ∷ []), h)

keep-past : (t : ℕ) (xs : List ℕ) → All (λ x. is_past 60 t x ≡ true) xs → keep (is_recent t) xs ≡ []
unfolding keep
keep-past t [] h = refl
keep-past t (x ∷ xs) (past, h) = rw past (keep-past t xs h)

keep-length_le : (t : ℕ) (xs : List ℕ) → recent t xs ≤ length xs
unfolding keep
keep-length_le t [] = omega arith
keep-length_le t (x ∷ xs) = ground (arith, keep-length_le t xs)

-- The recent times are no more than the window holds.
pub recent-le : (t : ℕ) (xs w : List ℕ) → IsTail t xs w → recent t xs ≤ length w
recent-le t xs w (old, e, h) =
    rw e (rw (keep-append (is_recent t) old w) (rw (keep-past t old h) (keep-length_le t w)))

recent_from :
    (t x : ℕ) (xs : List ℕ)
    → is_past 60 t x ≡ false
    → All (λ y. x ≤ y) xs
    → keep (is_recent t) xs ≡ xs
unfolding keep
recent_from t x [] now h = refl
recent_from t x (y ∷ ys) now (le, h) =
    let fresh : is_past 60 t y ≡ false = ground (arith, now, le) in
    rw fresh (ap (λ zs. y ∷ zs) (recent_from t x ys now h))

-- In order, everything that is left of a window is recent.
keep-drop_old : (t : ℕ) (w : List ℕ) → IsSorted w → keep (is_recent t) (drop_old t w) ≡ drop_old t w
unfolding drop_old keep
keep-drop_old t [] h = refl
keep-drop_old t (x ∷ xs) (first, h) = elim (Bool-cases (is_past 60 t x)) [
  | inl past ↦ rw past (keep-drop_old t xs h)
  | inr now ↦ rw now (rw now (ap (λ ys. x ∷ ys) (recent_from t x xs now first)))
]

IsSorted-suffix : (old w : List ℕ) → IsSorted (old ++ w) → IsSorted w
IsSorted-suffix [] w h = h
IsSorted-suffix (x ∷ old) w h = IsSorted-suffix old w h.1

-- A window that was pruned holds exactly the recent times.
pub recent-drop_old :
    (t : ℕ) (xs w : List ℕ) → IsSorted xs → IsTail t xs w → recent t xs ≡ length (drop_old t w)
recent-drop_old t xs w sorted (old, e, h) =
    let inner : IsSorted w = IsSorted-suffix old w (subst IsSorted e sorted) in
    let (old', e', h') = drop_old-IsTail t xs w (old, e, h) in
    ap (recent t) e'
    ∙ ap length (
        keep-append (is_recent t) old' (drop_old t w)
        ∙ ap (λ ys. ys ++ keep (is_recent t) (drop_old t w)) (keep-past t old' h')
        ∙ keep-drop_old t w inner)

pub all_times-append :
    (log : Log) (t : ℕ) (k : String) → all_times (log ++ (t, k) ∷ []) ≡ all_times log ++ t ∷ []
unfolding all_times
all_times-append [] t k = refl
all_times-append ((x, j) ∷ log) t k = ap (λ ys. x ∷ ys) (all_times-append log t k)

pub times-append :
    (key : String) (log : Log) (t : ℕ) (k : String)
    → times key (log ++ (t, k) ∷ []) ≡ (if k == key then times key log ++ t ∷ [] else times key log)
unfolding times
times-append key [] t k = refl
times-append key ((x, j) ∷ log) t k = elim (Bool-cases (j == key)) [
  | inl same ↦ rw same (times-append_head (k == key) x (times key log) t (times-append key log t k))
  | inr other ↦ rw other (times-append key log t k)
]
  where
    times-append_head :
        (b : Bool) (x : ℕ) (xs : List ℕ) (t : ℕ) {ys : List ℕ}
        → ys ≡ (if b then xs ++ t ∷ [] else xs)
        → x ∷ ys ≡ (if b then (x ∷ xs) ++ t ∷ [] else x ∷ xs)
    times-append_head true x xs t e = ap (λ zs. x ∷ zs) e
    times-append_head false x xs t e = ap (λ zs. x ∷ zs) e

pub All-times :
    (P : ℕ → Type 0) (key : String) (log : Log) → All P (all_times log) → All P (times key log)
unfolding times all_times
All-times P key [] h = tt
All-times P key ((x, k) ∷ log) (first, h) = elim (Bool-cases (k == key)) [
  | inl same ↦ rw same (first, All-times P key log h)
  | inr other ↦ rw other (All-times P key log h)
]

pub times-IsSorted :
    (key : String) (log : Log) → IsSorted (all_times log) → IsSorted (times key log)
unfolding times all_times
times-IsSorted key [] h = tt
times-IsSorted key ((x, k) ∷ log) (first, h) = elim (Bool-cases (k == key)) [
  | inl same ↦ rw same (All-times (λ y. x ≤ y) key log first, times-IsSorted key log h)
  | inr other ↦ rw other (times-IsSorted key log h)
]

pub append-IsSorted :
    (t : ℕ) (xs : List ℕ) → IsSorted xs → All (λ x. x ≤ t) xs → IsSorted (xs ++ t ∷ [])
append-IsSorted t [] h late = (tt, tt)
append-IsSorted t (x ∷ xs) (first, h) (le, late) =
    (All-append (λ y. x ≤ y) xs (t ∷ []) first (le, tt), append-IsSorted t xs h late)
