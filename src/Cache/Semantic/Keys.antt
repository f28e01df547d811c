-- ===== src/Cache/Semantic/Keys.antt =====
-- The keys of the cache: every operation keeps them distinct, and a new one is not in use.
use Prim.Native.String.{count}
use text.Mathlib.TextLemmas.{append_inj, append_cancel_left}
use enterprise_rag_engine.Prelude.{
  ℕ, ◌+◌, ◌≤◌, ◌<◌, String, ◌≡◌, refl, sym, ◌∙◌, false, none, [], ◌∷◌, ◌==◌, string_eq, arith,
  Bool-cases, inl, inr, All,
}
use enterprise_rag_engine.Prelude.Decimal.{to_text}
use enterprise_rag_engine.Prelude.Numerals.{to_text_inj}
use enterprise_rag_engine.Prelude.Dict.{Dict, lookup}
use enterprise_rag_engine.Cache.Semantic.{Entry, key_of}

key_of-distinct :
    (fp fp' : String) (m n : ℕ)
    → count fp ≡ 64
    → count fp' ≡ 64
    → m < n
    → (key_of fp m == key_of fp' n) ≡ false
unfolding key_of
key_of-distinct fp fp' m n size size' less = elim (Bool-cases (key_of fp m == key_of fp' n)) [
  | inr other ↦ other
  | inl same ↦
      let equal = (string_eq.beq_iff (key_of fp m) (key_of fp' n)).0 same in
      let tails = (append_inj {s₁ = fp} {s₂ = fp'} equal (size ∙ sym size')).1 in
      let numbers = to_text_inj m n (append_cancel_left ":" (to_text m) (to_text n) tails) in
      absurd (omega arith)
]

-- An entry's key is made from its scope and a counter that was reached.
module _ {Num Vec : Type 0} where
  abbrev pub IsKeyed : ℕ → String × Entry Num Vec → Type 0
  IsKeyed counter (k, e) =
      (n : ℕ) × (n ≤ counter) × (k ≡ key_of e.scope_fp n) × (count e.scope_fp ≡ 64)

  -- The key of a new entry is not in use, in whatever scope, if the digests have 64 characters.
  pub key_of-fresh :
      (fp : String) (counter : ℕ) (d : Dict String (Entry Num Vec))
      → count fp ≡ 64
      → All (IsKeyed counter) d
      → lookup (key_of fp (counter + 1)) d ≡ none
  unfolding lookup
  key_of-fresh fp counter [] size all = refl
  key_of-fresh fp counter ((k, e) ∷ d) size ((n, le, made, size'), all) =
      let other = key_of-distinct e.scope_fp fp n (counter + 1) size' size (omega arith) in
      rw (made, other) (key_of-fresh fp counter d size all)
