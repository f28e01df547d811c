-- ===== src/Cdc/Processor/Ordering.antt =====
-- Which event of a stream is the newest one of a chunk, independently of the processor.
use enterprise_rag_engine.Prelude.{
  ◌≤◌, String, ◌≡◌, ◌≢◌, refl, sym, ap, ◌∙◌, true, false, ◌⊎◌, inl, inr, Option, none, some, List,
  [], ◌∷◌, string_eq, arith, leb, leb→le, ◌==◌, if◌then◌else◌, Bool-cases, Option-cases, All,
}
use enterprise_rag_engine.Cdc.Events.{ChunkChangeEvent}
use mathlib.Core.Path.{subst}

abbrev pub Occurs : ChunkChangeEvent → List ChunkChangeEvent → Type 0
Occurs a [] = ⊥
Occurs a (e ∷ es) = (a ≡ e) ⊎ Occurs a es

-- The event to keep for a chunk: a later event wins only with a greater version.
unfoldable pub newer : String → Option ChunkChangeEvent → ChunkChangeEvent → Option ChunkChangeEvent
newer j none e = if e.chunk_id == j then some e else none
newer j (some a) e =
    if e.chunk_id == j
    then (if leb e.source_version a.source_version then some a else some e)
    else some a

unfoldable pub newest_from :
    String → Option ChunkChangeEvent → List ChunkChangeEvent → Option ChunkChangeEvent
newest_from j acc [] = acc
newest_from j acc (e ∷ es) = newest_from j (newer j acc e) es

-- The newest event of the chunk `j` in a stream, if it has one
unfoldable pub newest : String → List ChunkChangeEvent → Option ChunkChangeEvent
newest j es = newest_from j none es

-- No event of a stream for the chunk `j` is newer than `a`.
abbrev pub Bounds : String → ChunkChangeEvent → List ChunkChangeEvent → Type 0
Bounds j a es = All (λ e. e.chunk_id ≡ j → e.source_version ≤ a.source_version) es

newer-none :
    (j : String) (acc : Option ChunkChangeEvent) (e : ChunkChangeEvent)
    → newer j acc e ≡ none
    → (acc ≡ none) × (e.chunk_id ≢ j)
unfolding newer
newer-none j none e h = ground (arith, h, string_eq.beq_iff e.chunk_id j)
newer-none j (some a) e h = ground (arith, h)

newer-source :
    (j : String) (acc : Option ChunkChangeEvent) (e a : ChunkChangeEvent)
    → newer j acc e ≡ some a
    → (acc ≡ some a) ⊎ ((a ≡ e) × (e.chunk_id ≡ j))
unfolding newer
newer-source j none e a h = ground (arith, h, string_eq.beq_iff e.chunk_id j)
newer-source j (some b) e a h = ground (arith, h, string_eq.beq_iff e.chunk_id j)

newer-old :
    (j : String) (b e : ChunkChangeEvent)
    → (c : ChunkChangeEvent) × (newer j (some b) e ≡ some c) × (b.source_version ≤ c.source_version)
unfolding newer
newer-old j b e = elim (Bool-cases (e.chunk_id == j)) [
  | inr other ↦ (b, rw other, omega arith)
  | inl same ↦ elim (Bool-cases (leb e.source_version b.source_version)) [
    | inl older ↦ (b, rw (same, older), omega arith)
    | inr later ↦ (e, rw (same, later), ground (arith, later))
  ]
]

newer-new :
    (j : String) (acc : Option ChunkChangeEvent) (e : ChunkChangeEvent)
    → e.chunk_id ≡ j
    → (c : ChunkChangeEvent) × (newer j acc e ≡ some c) × (e.source_version ≤ c.source_version)
unfolding newer
newer-new j none e same = (e, rw ((string_eq.beq_iff e.chunk_id j).1 same), omega arith)
newer-new j (some b) e same = elim (Bool-cases (leb e.source_version b.source_version)) [
  | inl older ↦ (b, rw ((string_eq.beq_iff e.chunk_id j).1 same, older), leb→le _ _ older)
  | inr later ↦ (e, rw ((string_eq.beq_iff e.chunk_id j).1 same, later), omega arith)
]

newest_from-none :
    (j : String) (acc : Option ChunkChangeEvent) (es : List ChunkChangeEvent)
    → newest_from j acc es ≡ none
    → (acc ≡ none) × All (λ e. e.chunk_id ≢ j) es
unfolding newest_from
newest_from-none j acc [] h = (h, tt)
newest_from-none j acc (e ∷ es) h =
    let (start, none_later) = newest_from-none j (newer j acc e) es h in
    let (empty, other) = newer-none j acc e start in (empty, (other, none_later))

newest_from-some :
    (j : String) (acc : Option ChunkChangeEvent) (es : List ChunkChangeEvent) (a : ChunkChangeEvent)
    → newest_from j acc es ≡ some a
    → ((acc ≡ some a) ⊎ (Occurs a es × (a.chunk_id ≡ j)))
      × ((b : ChunkChangeEvent) → acc ≡ some b → b.source_version ≤ a.source_version)
      × Bounds j a es
unfolding newest_from
newest_from-some j acc [] a h = (inl h, λ b e. ground (arith, h, e), tt)
newest_from-some j acc (e ∷ es) a h =
    let (source, later, bound) = newest_from-some j (newer j acc e) es a h in
    (
      elim source [
        | inr (there, same) ↦ inr (inr there, same)
        | inl first ↦ elim (newer-source j acc e a first) [
          | inl old ↦ inl old
          | inr (new, same) ↦ inr (inl new, ap (λ x. x.chunk_id) new ∙ same)
        ]
      ],
      λ b old.
          let (c, taken, le) = newer-old j b e in
          let below = later c (ap (λ o. newer j o e) old ∙ taken) in omega arith,
      (
        λ same.
            let (c, taken, le) = newer-new j acc e same in let below = later c taken in omega arith,
        bound,
      ),
    )

pub newer-other :
    (j : String) (o : Option ChunkChangeEvent) (e : ChunkChangeEvent)
    → (e.chunk_id == j) ≡ false
    → newer j o e ≡ o
unfolding newer
newer-other j none e other = rw other
newer-other j (some a) e other = rw other

pub newer-wins :
    (j : String) (o : Option ChunkChangeEvent) (e : ChunkChangeEvent)
    → (e.chunk_id == j) ≡ true
    → ((a : ChunkChangeEvent) → o ≡ some a → leb e.source_version a.source_version ≡ false)
    → newer j o e ≡ some e
unfolding newer
newer-wins j none e same fresh = rw same
newer-wins j (some a) e same fresh = rw (same, fresh a refl)

-- The newest event of a chunk is one of the stream's, and none for the chunk has a greater
-- version; a chunk without one has no event there.
pub newest-some :
    (j : String) (es : List ChunkChangeEvent) (a : ChunkChangeEvent)
    → newest j es ≡ some a
    → Occurs a es × (a.chunk_id ≡ j) × Bounds j a es
unfolding newest
newest-some j es a h =
    let (source, _, bound) = newest_from-some j none es a h in
    elim source [ inl absent ↦ ground (arith, absent) | inr (there, same) ↦ (there, same, bound) ]

pub newest-none :
    (j : String) (es : List ChunkChangeEvent) → newest j es ≡ none → All (λ e. e.chunk_id ≢ j) es
unfolding newest
newest-none j es h = (newest_from-none j none es h).1

Occurs-All :
    (P : ChunkChangeEvent → Type 0) (a : ChunkChangeEvent) (es : List ChunkChangeEvent)
    → Occurs a es
    → All P es
    → P a
Occurs-All P a [] there all = absurd there
Occurs-All P a (e ∷ es) (inl same) all = subst P (sym same) all.0
Occurs-All P a (e ∷ es) (inr there) all = Occurs-All P a es there all.1

-- Two streams carry the same events, each of them once or more often.
abbrev pub SameEvents : List ChunkChangeEvent → List ChunkChangeEvent → Type 0
SameEvents es es' = All (λ e. Occurs e es') es × All (λ e. Occurs e es) es'

-- The connector's contract: two events of a chunk with one version are one event.
abbrev pub VersionsUnique : List ChunkChangeEvent → Type 0
VersionsUnique es =
    (a b : ChunkChangeEvent)
    → Occurs a es
    → Occurs b es
    → a.chunk_id ≡ b.chunk_id
    → a.source_version ≡ b.source_version
    → a ≡ b

-- The newest event of a chunk does not depend on the order or the repetitions of the stream.
pub newest-SameEvents :
    (j : String) (es es' : List ChunkChangeEvent)
    → VersionsUnique es
    → SameEvents es es'
    → newest j es ≡ newest j es'
newest-SameEvents j es es' unique same =
    go (Option-cases (newest j es)) (Option-cases (newest j es'))
  where
    go :
        (newest j es ≡ none) ⊎ ((a : ChunkChangeEvent) × (newest j es ≡ some a))
        → (newest j es' ≡ none) ⊎ ((a : ChunkChangeEvent) × (newest j es' ≡ some a))
        → newest j es ≡ newest j es'
    go (inl n) (inl n') = n ∙ sym n'
    go (inl n) (inr (b, n')) =
        let (there, id, _) = newest-some j es' b n' in
        absurd (Occurs-All _ b es (Occurs-All _ b es' there same.1) (newest-none j es n) id)
    go (inr (a, n)) (inl n') =
        let (there, id, _) = newest-some j es a n in
        absurd (Occurs-All _ a es' (Occurs-All _ a es there same.0) (newest-none j es' n') id)
    go (inr (a, n)) (inr (b, n')) =
        let (there, id, bound) = newest-some j es a n in
        let (there', id', bound') = newest-some j es' b n' in
        let back = Occurs-All _ b es' there' same.1 in
        let le = Occurs-All _ b es back bound id' in
        let ge = Occurs-All _ a es' (Occurs-All _ a es there same.0) bound' id in
        n ∙ ap some (unique a b there back (id ∙ sym id') (omega arith)) ∙ sym n'
