-- ===== src/Chunking/Chunks.antt =====
-- etl/chunker/semantic_chunker.py: the overlap of the chunks of SemanticChunker, and the merging of
-- short ones. Of a chunk there is what these read or write.
use Prim.Native.String.{◌++◌ as str_append}
use rag_system.Base.{
  ℕ, ◌+◌, ◌*◌, leb, ltb, ◌==◌, Bool, ◌&&◌, ◌||◌, List, [], ◌∷◌, ◌++◌, String, str_eq, if◌then◌else◌,
}

pub record Chunk : Type 0 where
  pub text : String
  pub hash : String
  pub title : String
  pub keywords : List String
  pub entities : List String
  pub hypothetical_questions : List String
  pub position : ℕ
  pub tokens_approx : ℕ

-- The length of a text, its last characters, its tokens and its hash
pub record Texts : Type 0 where
  pub len : String → ℕ
  pub last : ℕ → String → String
  pub estimate_tokens : String → ℕ
  pub sha256 : String → String

module _ (texts : Texts) where
  unfoldable pub with_text : String → Chunk → Chunk
  with_text text c = record c {
    text = text;
    hash = texts.sha256 text;
    tokens_approx = texts.estimate_tokens text;
  }

  module _ (overlap_tokens : ℕ) where
    unfoldable pub snippet : String → String
    snippet prev_text =
        if ltb (overlap_tokens * 4) (texts.len prev_text)
        then texts.last (overlap_tokens * 4) prev_text
        else prev_text

    -- A chunk behind the one with the first text
    unfoldable pub overlapped : String → Chunk → Chunk
    unfolding snippet with_text
    overlapped prev_text c =
        if str_eq prev_text ""
        then c
        else with_text
            (str_append "[previous context: ..."
              (str_append (snippet prev_text) (str_append "]\n\n" c.text)))
            c

    unfoldable pub overlap_all : String → List Chunk → List Chunk
    unfolding overlapped
    overlap_all prev_text [] = []
    overlap_all prev_text (c ∷ cs) = let c' = overlapped prev_text c in c' ∷ overlap_all c'.text cs

    unfoldable pub apply_overlap : List Chunk → List Chunk
    unfolding overlap_all
    apply_overlap [] = []
    apply_overlap (c ∷ []) = c ∷ []
    apply_overlap (c ∷ d ∷ cs) =
        let all = overlap_all "" (c ∷ d ∷ cs) in if overlap_tokens == 0 then c ∷ d ∷ cs else all

  module _ (max_tokens min_chunk_tokens : ℕ) where
    unfoldable pub mergeable : Chunk → Chunk → Bool
    mergeable buffer c =
        leb (buffer.tokens_approx + c.tokens_approx) max_tokens
        && (ltb buffer.tokens_approx min_chunk_tokens || ltb c.tokens_approx min_chunk_tokens)

    unfoldable pub joined : Chunk → Chunk → Chunk
    unfolding with_text
    joined buffer c =
        record (with_text (str_append buffer.text (str_append "\n\n" c.text)) buffer) {
          keywords = buffer.keywords ++ c.keywords;
          entities = buffer.entities ++ c.entities;
          hypothetical_questions = buffer.hypothetical_questions ++ c.hypothetical_questions;
        }

    unfoldable pub merge_from : Chunk → List Chunk → List Chunk
    merge_from buffer [] = buffer ∷ []
    merge_from buffer (c ∷ cs) =
        let merged = merge_from (joined buffer c) cs in
        let apart = merge_from c cs in if mergeable buffer c then merged else buffer ∷ apart

    unfoldable pub merge_short_chunks : List Chunk → List Chunk
    merge_short_chunks [] = []
    merge_short_chunks (c ∷ cs) = merge_from c cs
