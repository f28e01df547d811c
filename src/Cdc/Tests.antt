-- ===== src/Cdc/Tests.antt =====
-- A stream over a store of rows and the semantic cache, which meet what the processor relies on.
use enterprise_rag_engine.Prelude.{
  ℕ, String, ◌≡◌, refl, sym, ap, ◌∙◌, Bool, true, false, not, Option, some, List, [], ◌∷◌, ◌==◌,
  string_eq, nat_eq, if◌then◌else◌, arith, inl, inr, any, contains, keep,
}
use enterprise_rag_engine.Prelude.Dict.{Dict, lookup, insert, erase, lookup-insert, lookup-erase}
use enterprise_rag_engine.Schemas.{Value}
use enterprise_rag_engine.Cdc.Events.{ChangeOp, ChunkChangeEvent}
use enterprise_rag_engine.Cdc.Processor.{Row, Backend, CdcState, run, apply}
use enterprise_rag_engine.Cdc.Processor.Attempts.{Handles, apply-Handles}
use enterprise_rag_engine.Cdc.Processor.Ordering.{Occurs, SameEvents, VersionsUnique, newest}
use enterprise_rag_engine.Cdc.Processor.Converges.{
  Reliable, Reflects, SameView, run_lem, run-SameEvents,
}
use enterprise_rag_engine.Prelude.DistinctKeys.{HasDistinctKeys}
use enterprise_rag_engine.Cdc.ReEmbed.{reembed_all, running}
use enterprise_rag_engine.Cdc.ReEmbed.Drains.{Drained, reembed_all_lem}
use enterprise_rag_engine.Cdc.ReEmbed.Diverges.{reembed_all-running}
use enterprise_rag_engine.Cdc.MemoryStore.{Rows, memory, memory_works}

-- The rows by chunk, and the chunks of each cached answer
abbrev World : Type 0
World = Dict String Row × List (List String)

abbrev value_text : Option Value → String
value_text (some (Value.text s)) = s
value_text _ = ""

abbrev row_id : Row → String
row_id r = value_text (lookup "chunk_id" r)

abbrev refers : String → List String → Bool
refers id ids = not (contains id ids)

abbrev backend : Backend World
backend = record {
  upsert_chunk = λ r w. (true, (insert (row_id r) r w.0, w.1));
  delete_chunk = λ id w. (true, (erase id w.0, w.1));
  invalidate_chunk = λ id w. (true, (w.0, keep (refers id) w.1));
}

any-keep-same :
    (id : String) (es : List (List String)) → any (contains id) (keep (refers id) es) ≡ false
unfolding any keep
any-keep-same id [] = refl
any-keep-same id (x ∷ es) = ground (arith, any-keep-same id es)

any-keep :
    (f : List String → Bool) (id : String) (es : List (List String))
    → any (contains id) es ≡ false
    → any (contains id) (keep f es) ≡ false
unfolding any keep
any-keep f id [] h = refl
any-keep f id (x ∷ es) h = ground (arith, h, any-keep f id es)

works : Reliable backend
works = record {
  row = λ j w. lookup j w.0;
  cached = λ j w. any (contains j) w.1;
  upsert_works = λ id r w named. (
    refl,
    λ j.
        lookup-insert (row_id r) j r w.0
        ∙ ap (λ o. if value_text o == j then some r else lookup j w.0) named,
    λ j. refl,
  );
  delete_works = λ id w. (refl, λ j. lookup-erase id j w.0, λ j. refl);
  invalidate_works =
      λ id w. (refl, λ j. refl, any-keep-same id w.1, λ j h. any-keep (refers id) j w.1 h);
}

abbrev event : ChangeOp → String → ℕ → ChunkChangeEvent
event op id version = record {
  op = op;
  chunk_id = id;
  source_version = version;
  payload = ("sensitivity_class", Value.text "D") ∷ [];
}

abbrev first_events : List ChunkChangeEvent
first_events =
    event ChangeOp.insert "c1" 1
    ∷ event ChangeOp.reclassify "c1" 2
    ∷ event ChangeOp.delete "c2" 5
    ∷ []

-- Reordered, with a replay
abbrev second_events : List ChunkChangeEvent
second_events =
    event ChangeOp.delete "c2" 5
    ∷ event ChangeOp.reclassify "c1" 2
    ∷ event ChangeOp.insert "c1" 1
    ∷ event ChangeOp.reclassify "c1" 2
    ∷ []

abbrev start : CdcState World
start = record {
  world = ([], ("c1" ∷ "c9" ∷ []) ∷ ("c3" ∷ []) ∷ []);
  applied_version = [];
  notices = [];
}

apply-Handles_example :
    Handles backend 2
      (event ChangeOp.delete "c2" 5)
      start
      (apply backend 2 (event ChangeOp.delete "c2" 5) start)
apply-Handles_example = apply-Handles backend 2 (event ChangeOp.delete "c2" 5) start

run_lem_example :
    (st' : CdcState World) × (run backend 2 first_events start ≡ some st')
    × ((j : String) → Reflects backend works start.world st' j (newest j first_events))
run_lem_example = run_lem backend works 2 first_events start refl

abbrev by_version : ℕ → ChunkChangeEvent
by_version n =
    if n == 1
    then event ChangeOp.insert "c1" 1
    else if n == 2
    then event ChangeOp.reclassify "c1" 2
    else event ChangeOp.delete "c2" 5

from_version : (a : ChunkChangeEvent) → Occurs a first_events → a ≡ by_version a.source_version
from_version a (inl p) = p ∙ sym (ap (λ e. by_version e.source_version) p)
from_version a (inr (inl p)) = p ∙ sym (ap (λ e. by_version e.source_version) p)
from_version a (inr (inr (inl p))) = p ∙ sym (ap (λ e. by_version e.source_version) p)
from_version a (inr (inr (inr p))) = absurd p

first_unique : VersionsUnique first_events
first_unique a b p q id v = from_version a p ∙ ap by_version v ∙ sym (from_version b q)

same_events : SameEvents first_events second_events
same_events = (
  (inr (inr (inl refl)), (inr (inl refl), (inl refl, tt))),
  (inr (inr (inl refl)), (inr (inl refl), (inl refl, (inr (inl refl), tt)))),
)

run-SameEvents_example :
    (a b : CdcState World) × (run backend 2 first_events start ≡ some a)
    × (run backend 2 second_events start ≡ some b)
    × SameView backend works a b
run-SameEvents_example =
    run-SameEvents backend works 2 first_events second_events start refl first_unique same_events

-- Three chunks of the first version of the embedder, and one of the second
abbrev old_row : String → ℕ → Row
old_row cls level =
    ("text", Value.text "body")
    ∷ ("cls", Value.text cls)
    ∷ ("level", Value.int level)
    ∷ ("embedder_version", Value.text "v1")
    ∷ []

abbrev rows : Rows
rows =
    ("c1", old_row "D" 2)
    ∷ ("c2", old_row "E" 4)
    ∷ ("c3", ("embedder_version", Value.text "v2") ∷ [])
    ∷ ("c4", old_row "B" 1)
    ∷ []

rows-HasDistinctKeys : HasDistinctKeys rows
unfolding lookup
rows-HasDistinctKeys = (refl, (refl, (refl, (refl, tt))))

reembed_all_lem_example :
    Drained
      (memory "v2" 2)
      (memory_works "v2" 2)
      "v1"
      3
      rows
      (reembed_all (memory "v2" 2) 4 "v1" rows)
unfolding keep lookup
reembed_all_lem_example =
    reembed_all_lem (memory "v2" 2) (memory_works "v2" 2) "v1" refl (omega arith) 4 rows
      rows-HasDistinctKeys (omega arith)

reembed_all-running_example : (w' : Rows) × (reembed_all (memory "v1" 2) 9 "v1" rows ≡ running w')
unfolding keep lookup
reembed_all-running_example =
    reembed_all-running (memory "v1" 2) (memory_works "v1" 2) "v1" (inl refl) 9 rows
      rows-HasDistinctKeys (omega arith)
