-- ===== src/Governance/Citations.antt =====
-- src/rag_engine/governance/citations.py: the citations of an answer. `sha256` is hashlib's.
pub mod Quotes
use Prim.Native.String.{◌++◌ as concat, count}
use enterprise_rag_engine.Prelude.{
  ℕ, String, Option, none, some, List, map, ltb, if◌then◌else◌, strip, flatten_lines, take_chars,
  before_last_space,
}
use enterprise_rag_engine.Schemas.{ScoredChunk, Citation, doc_hash}

-- `quote[:n].rsplit(" ", 1)[0] + "…"`
unfoldable pub shorten : ℕ → String → String
shorten n quote =
    concat
      (elim (before_last_space (take_chars n quote)) [
        | none ↦ take_chars n quote
        | some whole_words ↦ whole_words
      ])
      "…"

unfoldable pub quote_of : ℕ → String → String
unfolding shorten
quote_of max_quote_chars content =
    let quote = flatten_lines (strip content) in
    if ltb max_quote_chars (count quote) then shorten max_quote_chars quote else quote

unfoldable pub citation_of : (String → String) → ℕ → ScoredChunk → Citation
unfolding quote_of
citation_of sha256 max_quote_chars sc = record {
  chunk_id = sc.chunk.chunk_id;
  parent_doc_id = sc.chunk.parent_doc_id;
  parent_title = sc.chunk.parent_title;
  doc_hash = doc_hash sha256 sc.chunk;
  quote = quote_of max_quote_chars sc.chunk.content;
}

unfoldable pub build_citations : (String → String) → ℕ → List ScoredChunk → List Citation
unfolding citation_of
build_citations sha256 max_quote_chars = map (citation_of sha256 max_quote_chars)
