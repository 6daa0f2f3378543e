-- ===== src/Chunking/Elements.antt =====
-- etl/chunker/semantic_chunker.py: AdaptiveChunker, from the elements of a text to its chunks.
use Prim.Native.String.{◌++◌ as str_append}
use rag_system.Base.{
  ℕ, ◌+◌, ◌*◌, ◌/◌, leb, ltb, ◌==◌, Bool, true, false, ◌||◌, List, [], ◌∷◌, ◌++◌, String, str_eq,
  if◌then◌else◌,
}

pub data ElementType : Type 0 where
  header : ElementType
  code : ElementType
  table : ElementType
  paragraph : ElementType

pub record Element : Type 0 where
  pub type : ElementType
  pub text : String
  pub start : ℕ
  pub finish : ℕ

abbrev pub is_header : ElementType → Bool
is_header header = true
is_header code = false
is_header table = false
is_header paragraph = false

abbrev pub is_code : ElementType → Bool
is_code header = false
is_code code = true
is_code table = false
is_code paragraph = false

module _ (len : String → ℕ) (target_chunk_size min_chunk_size : ℕ) where
  -- Whether an element goes on the current chunk
  unfoldable pub continues : Element → Element → Bool
  continues current elem =
      if is_header elem.type || (is_code elem.type || is_code current.type)
      then false
      else leb (len current.text + len elem.text) target_chunk_size

  unfoldable pub extended : Element → Element → Element
  extended current elem = record current {
    text = str_append current.text (str_append "\n" elem.text);
    finish = elem.finish;
  }

  unfoldable pub merge_elements : Element → List Element → List Element
  merge_elements current [] = current ∷ []
  merge_elements current (elem ∷ elements) =
      let longer = merge_elements (extended current elem) elements in
      let rest = merge_elements elem elements in
      if continues current elem
      then longer
      else if leb min_chunk_size (len current.text)
      then current ∷ rest
      else rest

  unfoldable pub merge_small_elements : List Element → List Element
  merge_small_elements [] = []
  merge_small_elements (elem ∷ elements) = merge_elements elem elements

-- The cutting of texts: into sentences, without the blanks around them, and to the last characters
pub record Cutter : Type 0 where
  pub sentences : String → List String
  pub strip : String → String
  pub last : ℕ → String → String

module _ (len : String → ℕ) (cutter : Cutter) where
  unfoldable pub piece : Element → String → Element
  piece elem current_chunk = record elem {
    text = cutter.strip current_chunk;
    finish = elem.start + len current_chunk;
  }

  module _ (target_chunk_size : ℕ) where
    -- The loop over the sentences, with those that are not in a chunk yet
    unfoldable pub split_sentences : Element → String → List String → List Element
    split_sentences elem current_chunk [] =
        if str_eq current_chunk "" then [] else piece elem current_chunk ∷ []
    split_sentences elem current_chunk (sentence ∷ sentences) =
        let alone = split_sentences elem sentence sentences in
        let longer =
          split_sentences elem (str_append current_chunk (str_append " " sentence)) sentences in
        if ltb target_chunk_size (len current_chunk + len sentence)
        then (if str_eq current_chunk "" then alone else piece elem current_chunk ∷ alone)
        else if str_eq current_chunk ""
        then alone
        else longer

    unfoldable pub split_large_chunks : ℕ → List Element → List Element
    split_large_chunks max_chunk_size [] = []
    split_large_chunks max_chunk_size (elem ∷ elements) =
        let rest = split_large_chunks max_chunk_size elements in
        if leb (len elem.text) max_chunk_size
        then elem ∷ rest
        else split_sentences elem "" (cutter.sentences elem.text) ++ rest

  -- `text[-n:]`, which is all of it where `n` is zero
  unfoldable pub last_characters : ℕ → String → String
  last_characters n text = if n == 0 then text else cutter.last n text

  -- The ratio is in hundredths. The text before has its own overlap already.
  unfoldable pub overlap_from : ℕ → String → List Element → List Element
  overlap_from overlap_ratio before [] = []
  overlap_from overlap_ratio before (elem ∷ elements) =
      let overlap_text = last_characters (len before * overlap_ratio / 100) before in
      let text =
        str_append "[previous context: ..."
          (str_append overlap_text (str_append "]\n\n" elem.text)) in
      record elem { text = text } ∷ overlap_from overlap_ratio text elements

  unfoldable pub apply_element_overlap : ℕ → List Element → List Element
  apply_element_overlap overlap_ratio [] = []
  apply_element_overlap overlap_ratio (elem ∷ elements) =
      let overlapped = elem ∷ overlap_from overlap_ratio elem.text elements in
      if overlap_ratio == 0 then elem ∷ elements else overlapped

  unfoldable pub chunk_elements : ℕ → ℕ → ℕ → ℕ → List Element → List Element
  chunk_elements target_chunk_size min_chunk_size max_chunk_size overlap_ratio elements =
      let merged = merge_small_elements len target_chunk_size min_chunk_size elements in
      let final = split_large_chunks target_chunk_size max_chunk_size merged in
      apply_element_overlap overlap_ratio final
