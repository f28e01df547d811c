-- ===== src/Trace/Terms.antt =====
-- src/rag_engine/trace.py: the terms of a question. Lower case is that of ASCII.
pub mod Bounds
use Prim.Native.Char.{Char, code}
use Prim.Native.String.{count}
use enterprise_rag_engine.Prelude.{
  ℕ, String, Bool, not, ◌&&◌, ◌||◌, List, [], ◌∷◌, ◌++◌, string_eq, ltb, leb, if◌then◌else◌, is_nil,
  is_space, lower, contains, take, length, fold_text, prepend_char,
}

-- A run of characters that was read, if it is not empty, and the runs after it
abbrev pub flush : String × List String → List String
flush (w, ws) = if is_nil w then ws else w ∷ ws

abbrev pub extend : (Char → Bool) → Char → String × List String → String × List String
extend belongs c (w, ws) = if belongs c then (prepend_char c w, ws) else ("", flush (w, ws))

-- The maximal runs of characters that belong, in order
unfoldable pub runs : (Char → Bool) → String → List String
runs belongs s = flush (fold_text (extend belongs) ("", []) s)

-- `[a-z0-9]`
unfoldable pub is_token_char : Char → Bool
is_token_char c = leb 97 (code c) && leb (code c) 122 || leb 48 (code c) && leb (code c) 57

-- `_TOKEN.findall(question.lower())`
unfoldable pub tokens : String → List String
unfolding runs is_token_char
tokens question = runs is_token_char (lower question)

-- `len(question.split())`
unfoldable pub count_words : String → ℕ
unfolding runs
count_words question = length (runs (λ c. not (is_space c)) question)

-- The loop of `_key_terms`, from the terms that it has seen
unfoldable pub collect_terms : List String → List String → List String
collect_terms seen [] = seen
collect_terms seen (t ∷ ts) =
    collect_terms (if ltb 2 (count t) && not (contains t seen) then seen ++ t ∷ [] else seen) ts

-- `_key_terms`
unfoldable pub key_terms : String → List String
unfolding tokens collect_terms
key_terms question = take 12 (collect_terms [] (tokens question))

-- `intent_shape`
unfoldable pub intent_shape : String → String
unfolding count_words
intent_shape question =
    if leb (count_words question) 8 then "short-form (heuristic)" else "long-form (heuristic)"
