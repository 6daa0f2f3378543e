-- ===== src/Chunking/Tests.antt =====
-- Runs of the chunkers, and their theorems at concrete inputs.
use Prim.Native.String.{count}
use rag_system.Base.{ℕ, List, [], ◌∷◌, String, str_eq, map, ◌≡◌, refl}
use rag_system.Chunking.Chunks.{
  Chunk, Texts, merge_short_chunks, merge_from, mergeable, joined, with_text,
}
use rag_system.Chunking.Merging
use rag_system.Chunking.Packing.{Section, Splitter, create_chunk, candidate, pack}
use rag_system.Chunking.Paragraphs.{IsPacked, pack-IsPacked}
use rag_system.Chunking.Elements.{
  Element, header, paragraph, continues, merge_elements, merge_small_elements,
}
use rag_system.Chunking.Losses

-- A token is a character here.
abbrev texts : Texts
texts = record { len = count; last = λ n s. s; estimate_tokens = count; sha256 = λ s. s }

abbrev chunk : String → ℕ → Chunk
chunk text position = create_chunk texts text position "root"

abbrev chunks : List Chunk
chunks = chunk "one" 0 ∷ chunk "two" 1 ∷ chunk "a longer one" 2 ∷ []

merge_short_chunks_lem_example :
    (groups : List Merging.Group) × (Merging.flatten groups ≡ chunks)
    × Merging.Merges texts 10 5 groups (merge_short_chunks texts 10 5 chunks)
    × Merging.IsMerged texts 10 5 groups
merge_short_chunks_lem_example = Merging.merge_short_chunks_lem texts 10 5 chunks

merged :
    map (λ c. c.text) (merge_short_chunks texts 10 5 chunks) ≡ "one\n\ntwo" ∷ "a longer one" ∷ []
unfolding merge_short_chunks merge_from mergeable joined with_text create_chunk
merged = refl

abbrev splitter : Splitter
splitter = record { is_blank = λ s. str_eq s ""; paragraphs = λ s. s ∷ "" ∷ "end" ∷ [] }

pack-IsPacked_example :
    IsPacked texts splitter 12 "# H\n" "# H\n"
      ("first" ∷ "" ∷ "second" ∷ [])
      (pack texts splitter 12 "# H\n" "H" 0 "# H\n" ("first" ∷ "" ∷ "second" ∷ []))
pack-IsPacked_example =
    pack-IsPacked texts splitter 12 "# H\n" "H" 0 "# H\n" ("first" ∷ "" ∷ "second" ∷ [])

packed :
    map (λ c. c.text) (pack texts splitter 12 "# H\n" "H" 0 "# H\n" ("first" ∷ "" ∷ "second" ∷ []))
    ≡ "# H\n\n\nfirst" ∷ "# H\nsecond" ∷ []
unfolding pack create_chunk candidate
packed = refl

abbrev sections : List Section
sections = record { heading = "root"; level = 0; content = "text" } ∷ []

abbrev intro : Element
intro = record { type = paragraph; text = "Important."; start = 0; finish = 10 }

abbrev title : Element
title = record { type = header; text = "# Title"; start = 11; finish = 18 }

-- A short paragraph before a heading is lost.
lost : merge_small_elements count 1000 200 (intro ∷ title ∷ []) ≡ title ∷ []
unfolding merge_small_elements merge_elements continues
lost = refl

merge_small_elements_lem_example :
    (runs : List Losses.Run) × (Losses.flatten runs ≡ intro ∷ title ∷ [])
    × (merge_small_elements count 1000 200 (intro ∷ title ∷ []) ≡ Losses.kept count 1000 200 runs)
    × Losses.AreRuns count 1000 200 runs
merge_small_elements_lem_example =
    Losses.merge_small_elements_lem count 1000 200 (intro ∷ title ∷ [])
