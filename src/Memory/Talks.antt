-- ===== src/Memory/Talks.antt =====
-- proxy/app/shared/memory_manager.py: what a conversation keeps, whatever is done to it.
use rag_system.Base.{ℕ, ◌≤◌, List, [], ◌∷◌, String, length, refl, ◌∙◌, arith}
use rag_system.Memory.Tracker.{Words}
use rag_system.Memory.Conversation.{
  Conversation, Printing, new_conversation, tokens_of, add_turn, summarize_older_turns, clear,
}
use rag_system.Memory.Summaries.{
  IsWithin, SameLimits, add_turn-IsWithin, summarize_older_turns-IsWithin,
}

-- What is done to a conversation
pub data Operation : Type 0 where
  turn : String → String → Operation
  summarize : ℕ → Operation
  forget : Operation

module _ (w : Words) (p : Printing) where
  unfoldable pub apply : Operation → Conversation → Conversation
  apply (turn role content) c = add_turn w role content c
  apply (summarize keep_recent) c = summarize_older_turns w p keep_recent c
  apply forget c = clear c

  unfoldable pub run : List Operation → Conversation → Conversation
  run [] c = c
  run (o ∷ os) c = run os (apply o c)

  apply-IsWithin :
      (o : Operation) (c : Conversation)
      → 1 ≤ c.max_turns_stored
      → IsWithin w c
      → IsWithin w (apply o c) × SameLimits w c (apply o c)
  unfolding apply clear
  apply-IsWithin (turn role content) c pos h = add_turn-IsWithin w role content c pos h
  apply-IsWithin (summarize keep_recent) c pos h =
      summarize_older_turns-IsWithin w p keep_recent c h
  apply-IsWithin forget c pos h =
      (unfold tokens_of in ((tt, omega arith), omega arith, omega arith, omega arith), (refl, refl))

  run-IsWithin :
      (os : List Operation) (c : Conversation)
      → 1 ≤ c.max_turns_stored
      → IsWithin w c
      → IsWithin w (run os c) × SameLimits w c (run os c)
  unfolding run
  run-IsWithin [] c pos h = (h, (refl, refl))
  run-IsWithin (o ∷ os) c pos h =
      let (h', (turns, names)) = apply-IsWithin o c pos h in
      let (h'', (turns', names')) = run-IsWithin os (apply o c) (omega (arith, pos, turns)) h' in
      (h'', (turns' ∙ turns, names' ∙ names))

  -- Whatever is said in a new conversation, and however often it is summarized or cleared, it keeps at
  -- most 100 turns, 500 entities and three summaries, and its estimate of tokens, the summaries aside,
  -- is never below what its turns have.
  pub run_bounded :
      (threshold : ℕ) (os : List Operation)
      → let c = run os (new_conversation threshold) in
        (length c.turns ≤ 100)
        × (length c.entity_tracker.entities ≤ 500)
        × (length c.summaries ≤ 3)
        × (tokens_of w c.turns ≤ c.total_token_estimate)
  unfolding new_conversation
  run_bounded threshold os =
      let (((names, few), turns, summaries, tokens), (same_turns, same_names)) =
        run-IsWithin os (new_conversation threshold) (omega arith)
          (unfold tokens_of in ((tt, omega arith), omega arith, omega arith, omega arith)) in
      (omega (arith, turns, same_turns), omega (arith, few, same_names), summaries, tokens)
