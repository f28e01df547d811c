-- ===== src/Governance/Citations/Quotes.antt =====
-- What a citation quotes.
use Prim.Native.Char.{code}
use Prim.Native.String.{[], ◌∷◌, ◌++◌, count}
use text.Mathlib.TextLemmas.{length-append, length-cons, nil-append, cons-append}
use enterprise_rag_engine.Prelude.{
  ℕ, zero, suc, ◌+◌, ◌≤◌, String, ◌≡◌, refl, Bool, false, ◌||◌, Option, none, some, arith, ltb,
  nat_beq, strip, flatten_lines, take_chars, before_last_space, Bool-cases, inl, inr,
}
use enterprise_rag_engine.Governance.Citations.{shorten, quote_of}

-- `"\n" in s`
unfoldable pub has_newline : String → Bool
has_newline [] = false
has_newline (c ∷ s) = nat_beq (code c) 10 || has_newline s

count-take_chars : (n : ℕ) (s : String) → count (take_chars n s) ≤ n
unfolding take_chars
count-take_chars zero s = omega arith
count-take_chars (suc n) [] = omega arith
count-take_chars (suc n) (c ∷ s) = simp length-cons (omega (arith, count-take_chars n s))

has_newline-take_chars :
    (n : ℕ) (s : String) → has_newline s ≡ false → has_newline (take_chars n s) ≡ false
unfolding take_chars has_newline
has_newline-take_chars zero s h = refl
has_newline-take_chars (suc n) [] h = refl
has_newline-take_chars (suc n) (c ∷ s) h = ground (arith, h, has_newline-take_chars n s)

-- A part of a text: no longer, and with no newline if the text has none
abbrev IsPart : String → Option String → Type 0
IsPart s none = Unit
IsPart s (some r) = (count r ≤ count s) × (has_newline s ≡ false → has_newline r ≡ false)

before_last_space-IsPart : (s : String) → IsPart s (before_last_space s)
unfolding before_last_space has_newline
before_last_space-IsPart [] = tt
before_last_space-IsPart (c ∷ s) = go (before_last_space s) refl (before_last_space-IsPart s)
  where
    go :
        (o : Option String)
        → before_last_space s ≡ o
        → IsPart s o
        → IsPart (c ∷ s) (before_last_space (c ∷ s))
    go none e h = elim (Bool-cases (nat_beq (code c) 32)) [
      | inl space ↦ rw (before_last_space, e, space) (omega arith, λ k. refl)
      | inr other ↦ rw (before_last_space, e, other) tt
    ]
    go (some r) e (short, clean) =
        rw (before_last_space, e)
          (omega (arith, short, length-cons c r, length-cons c s), λ k. ground (arith, k, clean))

has_newline-flatten_lines : (s : String) → has_newline (flatten_lines s) ≡ false
unfolding flatten_lines has_newline
has_newline-flatten_lines [] = refl
has_newline-flatten_lines (c ∷ s) = elim (Bool-cases (nat_beq (code c) 10)) [
  | inl newline ↦ rw newline (has_newline-flatten_lines s)
  | inr other ↦ rw other (rw other (has_newline-flatten_lines s))
]

has_newline-append :
    (s t : String) → has_newline s ≡ false → has_newline t ≡ false → has_newline (s ++ t) ≡ false
unfolding has_newline
has_newline-append [] t h k = rw (nil-append t) k
has_newline-append (c ∷ s) t h k =
    rw (cons-append c s t) (ground (arith, h, k, has_newline-append s t))

shorten_lem :
    (n : ℕ) (s : String)
    → has_newline s ≡ false
    → (count (shorten n s) ≤ n + 1) × (has_newline (shorten n s) ≡ false)
unfolding shorten
shorten_lem n s clean =
    go (before_last_space (take_chars n s)) refl (before_last_space-IsPart (take_chars n s))
  where
    go :
        (o : Option String)
        → before_last_space (take_chars n s) ≡ o
        → IsPart (take_chars n s) o
        → (count (shorten n s) ≤ n + 1) × (has_newline (shorten n s) ≡ false)
    go none e h =
        rw (shorten, e)
          (
            omega (arith, length-append (take_chars n s) "…", count-take_chars n s),
            has_newline-append (take_chars n s) "…" (has_newline-take_chars n s clean)
                (unfold has_newline in refl),
          )
    go (some r) e (short, whole) =
        rw (shorten, e)
          (
            omega (arith, length-append r "…", count-take_chars n s, short),
            has_newline-append r "…" (whole (has_newline-take_chars n s clean))
                (unfold has_newline in refl),
          )

-- A quote has at most `max_quote_chars` characters and the mark of an omission, and stands on one
-- line; a content that is short enough is quoted in full, stripped and on one line.
pub quote_of_lem :
    (max_quote_chars : ℕ) (content : String)
    → (count (quote_of max_quote_chars content) ≤ max_quote_chars + 1)
      × (has_newline (quote_of max_quote_chars content) ≡ false)
      × (count (flatten_lines (strip content)) ≤ max_quote_chars
          → quote_of max_quote_chars content ≡ flatten_lines (strip content))
unfolding quote_of
quote_of_lem n content = elim (Bool-cases (ltb n (count (flatten_lines (strip content))))) [
  | inl long ↦
      let (short, clean) =
        shorten_lem n (flatten_lines (strip content)) (has_newline-flatten_lines (strip content)) in
      rw (quote_of, long) (short, clean, λ fits. absurd (ground (arith, long, fits)))
  | inr fits ↦
      rw (quote_of, fits)
        (ground (arith, fits), has_newline-flatten_lines (strip content), λ k. refl)
]
