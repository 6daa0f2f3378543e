-- ===== src/Memory/Conversation.antt =====
-- proxy/app/shared/memory_manager.py: ConversationMemory. The time and the metadata of a turn, which
-- nothing here reads, are left out; cutting and printing texts are arguments.
use Prim.Native.String.{◌++◌ as str_append}
use rag_system.Base.{
  ℕ, ◌+◌, ◌-◌, ◌/◌, ltb, leb, ◌==◌, Bool, Option, none, some, List, [], ◌∷◌, ◌++◌, String, length,
  take, drop, if◌then◌else◌,
}
use rag_system.Memory.Tracker.{Words, EntityTracker, track}

pub record Turn : Type 0 where
  pub role : String
  pub content : String

pub record Conversation : Type 0 where
  pub turns : List Turn
  pub summaries : List String
  pub max_turns_stored : ℕ
  pub summary_threshold_tokens : ℕ
  pub entity_tracker : EntityTracker
  pub total_token_estimate : ℕ

-- `s[:n]`, `upper`, and `replace` of line breaks by blanks
pub record Printing : Type 0 where
  pub first : ℕ → String → String
  pub upper : String → String
  pub unbroken : String → String

-- `ConversationMemory(summary_threshold_tokens=threshold)`
unfoldable pub new_conversation : ℕ → Conversation
new_conversation threshold = record {
  turns = [];
  summaries = [];
  max_turns_stored = 100;
  summary_threshold_tokens = threshold;
  entity_tracker = record { entities = []; max_entities = 500 };
  total_token_estimate = 0;
}

module _ {ℓ} {A : Type ℓ} where
  -- `xs[-n:]`, which is all of the list for 0
  unfoldable pub from_end : ℕ → List A → List A
  from_end n xs = if n == 0 then xs else drop (length xs - n) xs

  -- `xs[:-n]`, which is nothing for 0
  unfoldable pub before_end : ℕ → List A → List A
  before_end n xs = if n == 0 then [] else take (length xs - n) xs

unfoldable pub summary_part : Printing → Turn → String
summary_part p t =
    str_append (p.upper (p.first 1 t.role))
      (str_append ": " (str_append (p.unbroken (p.first 120 t.content)) "..."))

-- `" | ".join(parts)`
unfoldable pub joined_parts : List String → String
joined_parts [] = ""
joined_parts (part ∷ []) = part
joined_parts (part ∷ other ∷ parts) =
    str_append part (str_append " | " (joined_parts (other ∷ parts)))

unfoldable pub summary_parts : Printing → List Turn → List String
summary_parts p [] = []
summary_parts p (t ∷ ts) = summary_part p t ∷ summary_parts p ts

unfoldable pub summary_of : Printing → List Turn → String
summary_of p older = str_append "[SUMMARY] " (joined_parts (summary_parts p older))

module _ (w : Words) where
  -- `sum(len(t["content"]) // 4 for t in turns)`
  unfoldable pub tokens_of : List Turn → ℕ
  tokens_of [] = 0
  tokens_of (t ∷ ts) = w.size t.content / 4 + tokens_of ts

  unfoldable pub summary_tokens : List String → ℕ
  summary_tokens [] = 0
  summary_tokens (s ∷ ss) = w.size s / 4 + summary_tokens ss

  unfoldable pub add_turn : String → String → Conversation → Conversation
  add_turn role content c =
      let turns = c.turns ++ (record { role = role; content = content } ∷ []) in
      record c {
        entity_tracker = track w content c.entity_tracker;
        total_token_estimate = c.total_token_estimate + w.size content / 4;
        turns =
            if ltb c.max_turns_stored (length turns)
            then from_end c.max_turns_stored turns
            else turns;
      }

  unfoldable pub estimate_tokens : Conversation → ℕ
  estimate_tokens c = c.total_token_estimate + summary_tokens c.summaries

  -- A threshold that is not given, or is 0, is the conversation's own.
  unfoldable pub needs_summarization : Option ℕ → Conversation → Bool
  needs_summarization threshold_tokens c =
      let threshold : ℕ = elim threshold_tokens [
        | none ↦ c.summary_threshold_tokens
        | some n ↦ if n == 0 then c.summary_threshold_tokens else n
      ] in
      ltb threshold (estimate_tokens c)

  unfoldable pub summarize_older_turns : Printing → ℕ → Conversation → Conversation
  summarize_older_turns p keep_recent c =
      let recent = from_end keep_recent c.turns in
      let summaries = c.summaries ++ (summary_of p (before_end keep_recent c.turns) ∷ []) in
      if leb (length c.turns) keep_recent then c else record c {
        summaries = if ltb 3 (length summaries) then from_end 3 summaries else summaries;
        turns = recent;
        total_token_estimate = tokens_of recent;
      }

unfoldable pub clear : Conversation → Conversation
clear c = record c {
  turns = [];
  summaries = [];
  entity_tracker = record { entities = []; max_entities = c.entity_tracker.max_entities };
  total_token_estimate = 0;
}
