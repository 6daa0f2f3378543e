-- ===== src/Memory/Tests.antt =====
-- proxy/app/shared/memory_manager.py: runs on small inputs, and the theorems at them.
use rag_system.Base.{
  ltb, if◌then◌else◌, some, ℕ, ◌+◌, ◌/◌, ◌≤◌, ◌<◌, min, true, false, none, List, [], ◌∷◌, ◌++◌,
  String, length, count, ◌≡◌, refl,
}
use rag_system.Base.Dict.{Dict, get, put, remove, Distinct}
use rag_system.Memory.Strings.{is_not_gt, str_leb}
use rag_system.Memory.Tracker.{Words, least, oldest, prune_loop, prune}
use rag_system.Memory.Pruning.{KeepsLargest, prune_lem}
use rag_system.Memory.Conversation.{
  Turn, Conversation, Printing, new_conversation, from_end, before_end, summary_of, summary_parts,
  summary_part, joined_parts, tokens_of, summarize_older_turns,
}
use rag_system.Memory.Summaries.{summarize_older_turns_lem}
use rag_system.Memory.Talks.{turn, summarize, run, run_bounded}
use rag_system.Memory.Sessions.{
  Sessions, delete_all, insert_key, sort_keys, prune_store, create, get_conversation,
}
use rag_system.Memory.Full.{get_conversation_full}

abbrev mentioned : Dict ℕ
mentioned = ("Kafka", 4) ∷ ("Neo4j", 1) ∷ ("Redis", 1) ∷ ("Qdrant", 2) ∷ []

pruned : prune 2 mentioned ≡ ("Kafka", 4) ∷ ("Qdrant", 2) ∷ []
unfolding prune prune_loop oldest least remove
pruned = refl

mentioned-Distinct : Distinct mentioned
unfolding get
mentioned-Distinct = (refl, (refl, (refl, (refl, tt))))

prune_lem_example :
    let kept = prune 2 mentioned in
    Distinct kept × (length kept ≡ min (length mentioned) 2) × KeepsLargest mentioned kept
prune_lem_example = prune_lem 2 mentioned mentioned-Distinct

-- Every word is an entity of eight characters.
abbrev words : Words
words = record {
  split = λ text. text ∷ [];
  strip = λ word. word;
  size = λ text. 8;
  starts_upper = λ text. true;
  has = λ part text. false;
}

abbrev printing : Printing
printing = record { first = λ n text. text; upper = λ text. text; unbroken = λ text. text }

abbrev talk : Conversation
talk = record (new_conversation 2000) {
  turns = record { role = "U"; content = "Kafka" } ∷ record { role = "A"; content = "Qdrant" } ∷ [];
  total_token_estimate = 9;
}

summarized : summarize_older_turns words printing 1 talk ≡ record talk {
  turns = record { role = "A"; content = "Qdrant" } ∷ [];
  summaries = "[SUMMARY] U: Kafka..." ∷ [];
  total_token_estimate = 2;
}
unfolding summarize_older_turns from_end before_end summary_of summary_parts summary_part
    joined_parts tokens_of new_conversation
summarized = refl

summarize_older_turns_lem_example :
    let c' = summarize_older_turns words printing 1 talk in
    (2 ≤ 1 → c' ≡ talk)
    × (1 < 2
        → (older : List Turn) × (earlier : List String) × (older ++ c'.turns ≡ talk.turns)
          × (length c'.turns ≡ 1)
          × (c'.total_token_estimate ≡ tokens_of words c'.turns)
          × (c'.summaries ≡ earlier ++ (summary_of printing older ∷ [])))
summarize_older_turns_lem_example = summarize_older_turns_lem words printing 1 talk

run_bounded_example :
    let c =
      run words printing
        (turn "U" "Kafka" ∷ turn "A" "Redis" ∷ summarize 1 ∷ [])
        (new_conversation 2000) in
    (length c.turns ≤ 100)
    × (length c.entity_tracker.entities ≤ 500)
    × (length c.summaries ≤ 3)
    × (tokens_of words c.turns ≤ c.total_token_estimate)
run_bounded_example =
    run_bounded words printing 2000 (turn "U" "Kafka" ∷ turn "A" "Redis" ∷ summarize 1 ∷ [])

abbrev full : Sessions
full = record {
  store = ("10.0.0.7", (talk, 3)) ∷ ("10.0.0.8", (talk, 4)) ∷ [];
  store_max_entries = 2;
  session_ttl = 0;
  threshold_tokens = 2000;
}

-- The name of a new session is before both.
lost :
    get_conversation 9 "10.0.0.1" full
    ≡ (none, record full { store = ("10.0.0.8", (talk, 4)) ∷ [] })
unfolding get_conversation create prune_store delete_all sort_keys insert_key str_leb is_not_gt get
    put remove
lost = refl

full-Distinct : Distinct full.store
unfolding get
full-Distinct = (refl, (refl, tt))

unknown : get "10.0.0.1" full.store ≡ none
unfolding get
unknown = refl

get_conversation_full_example :
    let (found, s') = get_conversation 9 "10.0.0.1" full in
    (found ≡ (
      if ltb 2 (count (λ e. str_leb e.0 "10.0.0.1") full.store + 2 / 2)
      then some (new_conversation 2000)
      else none))
    × (length s'.store ≡ 2 / 2)
get_conversation_full_example = get_conversation_full 9 "10.0.0.1" full full-Distinct unknown refl
