-- ===== src/Prelude/Numerals.antt =====
-- Different numbers have different numerals.
use Prim.Native.Nat.{ℕ, zero, suc, ◌+◌, ◌*◌, ◌/◌, ◌%◌, ◌<◌}
use Prim.Native.Char.{code}
use Prim.Native.String.{String, [], ◌∷◌}
use mathlib.Core.Path.{◌≡◌, refl, ap, sym, ◌∙◌}
use mathlib.Core.Logic.{inl, inr}
use mathlib.Core.Option.{some}
use native.Mathlib.Omega.{arith}
use enterprise_rag_engine.Prelude.Tests.{ltb, le→leb, Bool-cases}
use enterprise_rag_engine.Prelude.Decimal.{digit, decimal, to_text, parse_from}

code-digit : (d : ℕ) → d < 10 → code (digit d) ≡ 48 + d
code-digit zero h = refl
code-digit (suc zero) h = refl
code-digit (suc (suc zero)) h = refl
code-digit (suc (suc (suc zero))) h = refl
code-digit (suc (suc (suc (suc zero)))) h = refl
code-digit (suc (suc (suc (suc (suc zero))))) h = refl
code-digit (suc (suc (suc (suc (suc (suc zero)))))) h = refl
code-digit (suc (suc (suc (suc (suc (suc (suc zero))))))) h = refl
code-digit (suc (suc (suc (suc (suc (suc (suc (suc zero)))))))) h = refl
code-digit (suc (suc (suc (suc (suc (suc (suc (suc (suc zero))))))))) h = refl
code-digit (suc (suc (suc (suc (suc (suc (suc (suc (suc (suc d)))))))))) h = absurd (omega arith)

parse_from-digit :
    (m d : ℕ) (s : String) → d < 10 → parse_from m (digit d ∷ s) ≡ parse_from (m * 10 + d) s
unfolding parse_from
parse_from-digit m d s h = rw (code-digit d h) (
    rw (le→leb 48 (48 + d) (omega arith), le→leb (48 + d) 57 (omega arith))
      (ap (λ k. parse_from k s) (omega arith)))

parse_from-decimal :
    (fuel n : ℕ) (acc : String) → n < fuel → parse_from 0 (decimal fuel n acc) ≡ parse_from n acc
unfolding decimal
parse_from-decimal zero n acc h = absurd (omega arith)
parse_from-decimal (suc fuel) n acc h = elim (Bool-cases (ltb n 10)) [
  | inl small ↦
      rw small (
        parse_from-digit 0 n acc (ground (arith, small)) ∙ ap (λ k. parse_from k acc) (omega arith))
  | inr large ↦ rw large (
      parse_from-decimal fuel (n / 10) (digit (n % 10) ∷ acc) (ground (arith, large))
      ∙ parse_from-digit (n / 10) (n % 10) acc (omega arith)
      ∙ ap (λ k. parse_from k acc) (omega arith))
]

pub to_text_inj : (m n : ℕ) → to_text m ≡ to_text n → m ≡ n
unfolding to_text parse_from
to_text_inj m n e =
    let same : some m ≡ some n =
      sym (parse_from-decimal (suc m) m [] (omega arith))
      ∙ ap (parse_from 0) e
      ∙ parse_from-decimal (suc n) n [] (omega arith) in
    ground (arith, same)
