-- ===== src/Prelude/Texts.antt =====
-- Python's `str.strip` and `str.upper` on native texts, for ASCII: a character outside ASCII is
-- no white space and has no other case here.
use Prim.Native.Nat.{ℕ, zero, suc, ◌-◌}
use text.Mathlib.Text.{starts_with}
use Prim.Native.Char.{Char, code}
use Prim.Native.String.{String, [], ◌∷◌, char_at}
use mathlib.Core.Bool.{Bool, true, false, ◌&&◌, ◌||◌}
use mathlib.Core.Option.{Option, none, some}
use enterprise_rag_engine.Prelude.Tests.{nat_beq, leb, ltb, if◌then◌else◌}

-- `str.isspace` of one character: space, \t \n \v \f \r, and \x1c to \x1f.
pub is_space : Char → Bool
is_space c =
    nat_beq (code c) 32 || leb 9 (code c) && leb (code c) 13 || leb 28 (code c) && leb (code c) 31

abbrev pub upper_char : Char → Char
upper_char c =
    if leb 97 (code c) && leb (code c) 122
    then char_at "ABCDEFGHIJKLMNOPQRSTUVWXYZ" (code c - 97)
    else c

abbrev pub lower_char : Char → Char
lower_char c =
    if leb 65 (code c) && leb (code c) 90
    then char_at "abcdefghijklmnopqrstuvwxyz" (code c - 65)
    else c

-- `s.upper()`
unfoldable pub upper : String → String
upper [] = []
upper (c ∷ s) = upper_char c ∷ upper s

-- `s.lower()`, and `s.casefold()` on ASCII
unfoldable pub lower : String → String
lower [] = []
lower (c ∷ s) = lower_char c ∷ lower s

-- `s.lstrip()`
unfoldable pub lstrip : String → String
unfolding is_space
lstrip [] = []
lstrip (c ∷ s) = let rest = lstrip s in if is_space c then rest else c ∷ s

abbrev pub is_nil : String → Bool
is_nil [] = true
is_nil (c ∷ s) = false

-- `s.rstrip()`
unfoldable pub rstrip : String → String
unfolding is_space
rstrip [] = []
rstrip (c ∷ s) = let rest = rstrip s in if is_space c && is_nil rest then [] else c ∷ rest

-- `s.strip()`
unfoldable pub strip : String → String
unfolding lstrip rstrip
strip s = rstrip (lstrip s)

-- `any(ord(ch) < 0x20 for ch in s)`
unfoldable pub has_control : String → Bool
has_control [] = false
has_control (c ∷ s) = ltb (code c) 32 || has_control s

-- `part in text`
unfoldable pub has_part : String → String → Bool
has_part part [] = is_nil part
has_part part (c ∷ s) = starts_with (c ∷ s) part || has_part part s

-- What is after the first character with this code: `s.split(c, 1)[1]`, if `c in s`
unfoldable pub after_first : ℕ → String → Option String
after_first n [] = none
after_first n (c ∷ s) = let rest = after_first n s in if nat_beq (code c) n then some s else rest

-- `s.replace("\n", " ")`
unfoldable pub flatten_lines : String → String
flatten_lines [] = []
flatten_lines (c ∷ s) = (if nat_beq (code c) 10 then char_at " " 0 else c) ∷ flatten_lines s

-- `s[:n]`
unfoldable pub take_chars : ℕ → String → String
take_chars zero s = []
take_chars (suc n) [] = []
take_chars (suc n) (c ∷ s) = c ∷ take_chars n s

-- What is before the last space: `s.rsplit(" ", 1)[0]`, if there is a space
unfoldable pub before_last_space : String → Option String
before_last_space [] = none
before_last_space (c ∷ s) = elim (before_last_space s) [
  | some r ↦ some (c ∷ r)
  | none ↦ if nat_beq (code c) 32 then some [] else none
]

-- A fold from the right over the characters
unfoldable pub fold_text {ℓ} : {A : Type ℓ} → (Char → A → A) → A → String → A
fold_text step start [] = start
fold_text step start (c ∷ s) = step c (fold_text step start s)

abbrev pub prepend_char : Char → String → String
prepend_char c s = c ∷ s
