-- ===== src/Prelude/Decimal.antt =====
-- `str(n)` and `int(s)` for natural numbers.
use Prim.Native.Nat.{ℕ, zero, suc, ◌+◌, ◌-◌, ◌*◌, ◌/◌, ◌%◌}
use Prim.Native.Char.{Char, code}
use Prim.Native.String.{String, [], ◌∷◌, char_at}
use mathlib.Core.Bool.{◌&&◌}
use mathlib.Core.Option.{Option, none, some}
use enterprise_rag_engine.Prelude.Tests.{leb, ltb, if◌then◌else◌}

abbrev pub digit : ℕ → Char
digit d = char_at "0123456789" d

-- As many rounds as the number itself are enough: each divides it by ten.
unfoldable pub decimal : ℕ → ℕ → String → String
decimal zero n acc = acc
decimal (suc fuel) n acc =
    let rest = decimal fuel (n / 10) (digit (n % 10) ∷ acc) in
    if ltb n 10 then digit n ∷ acc else rest

-- `str(n)`
unfoldable pub to_text : ℕ → String
unfolding decimal
to_text n = decimal (suc n) n []

unfoldable pub parse_from : ℕ → String → Option ℕ
parse_from n [] = some n
parse_from n (c ∷ s) =
    let rest = parse_from (n * 10 + (code c - 48)) s in
    if leb 48 (code c) && leb (code c) 57 then rest else none

-- `int(s)`, on digits alone: `none` is the ValueError.
unfoldable pub to_int : String → Option ℕ
unfolding parse_from
to_int [] = none
to_int (c ∷ s) = parse_from 0 (c ∷ s)
