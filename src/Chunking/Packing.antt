-- ===== src/Chunking/Packing.antt =====
-- etl/chunker/semantic_chunker.py: chunk_markdown_with_overlap, from the sections of a document. The
-- paragraphs of a section and the test for a blank text are arguments; the enrichment at the end is
-- left out.
use Prim.Native.String.{◌++◌ as str_append}
use rag_system.Base.{
  ℕ, zero, suc, ◌+◌, max, ltb, Bool, ◌&&◌, not, List, [], ◌∷◌, ◌++◌, String, str_eq, length,
  if◌then◌else◌,
}
use rag_system.Chunking.Chunks.{Chunk, Texts, apply_overlap, merge_short_chunks}

pub record Section : Type 0 where
  pub heading : String
  pub level : ℕ
  pub content : String

pub record Splitter : Type 0 where
  pub is_blank : String → Bool
  pub paragraphs : String → List String

-- `'#' * n`
unfoldable pub hashes : ℕ → String
hashes zero = ""
hashes (suc n) = str_append "#" (hashes n)

unfoldable pub heading_prefix : Section → String
unfolding hashes
heading_prefix s =
    if str_eq s.heading "root"
    then ""
    else str_append (hashes (max s.level 1)) (str_append " " (str_append s.heading "\n"))

-- The current text with a paragraph
unfoldable pub candidate : String → String → String
candidate current_text para =
    if str_eq current_text "" then para else str_append current_text (str_append "\n\n" para)

module _ (texts : Texts) where
  unfoldable pub create_chunk : String → ℕ → String → Chunk
  create_chunk text position heading = record {
    text = text;
    hash = texts.sha256 text;
    title = heading;
    keywords = [];
    entities = [];
    hypothetical_questions = [];
    position = position;
    tokens_approx = texts.estimate_tokens text;
  }

module _ (texts : Texts) (splitter : Splitter) (max_tokens : ℕ) where
  -- The loop over the paragraphs, with the text that is not in a chunk yet
  unfoldable pub pack : String → String → ℕ → String → List String → List Chunk
  unfolding create_chunk
  pack prefix heading position current_text [] =
      if splitter.is_blank current_text
      then []
      else create_chunk texts current_text position heading ∷ []
  pack prefix heading position current_text (para ∷ paras) =
      let skipped = pack prefix heading position current_text paras in
      let longer = pack prefix heading position (candidate current_text para) paras in
      let unplaced = pack prefix heading position (str_append prefix para) paras in
      let placed = pack prefix heading (suc position) (str_append prefix para) paras in
      let is_full = ltb max_tokens (texts.estimate_tokens (candidate current_text para)) in
      if splitter.is_blank para
      then skipped
      else if is_full && not (str_eq current_text "")
      then (if splitter.is_blank current_text
          then unplaced
          else create_chunk texts current_text position heading ∷ placed)
      else longer

  unfoldable pub chunk_sections : ℕ → List Section → List Chunk
  unfolding pack heading_prefix
  chunk_sections position [] = []
  chunk_sections position (s ∷ sections) =
      let prefix = heading_prefix s in
      let chunks = pack prefix s.heading position prefix (splitter.paragraphs s.content) in
      chunks ++ chunk_sections (position + length chunks) sections

  unfoldable pub chunk_markdown_with_overlap : ℕ → ℕ → List Section → List Chunk
  unfolding chunk_sections
  chunk_markdown_with_overlap overlap_tokens min_chunk_tokens sections =
      let chunks = apply_overlap texts overlap_tokens (chunk_sections 0 sections) in
      merge_short_chunks texts max_tokens min_chunk_tokens chunks
