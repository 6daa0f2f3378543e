-- ===== src/Memory/Summaries.antt =====
-- proxy/app/shared/memory_manager.py: what a conversation keeps, and what a summary takes out of it.
use rag_system.Base.{
  ℕ, zero, suc, ◌+◌, ◌-◌, ◌/◌, ◌≤◌, ◌<◌, ltb, leb, ◌==◌, true, false, List, [], ◌∷◌, ◌++◌, String,
  length, length-append, take, drop, if◌then◌else◌, ◌≡◌, inl, inr, refl, ap, arith, Bool-cases,
}
use rag_system.Base.Dict.{Distinct}
use rag_system.Memory.Tracker.{Words}
use rag_system.Memory.Pruning.{track-Distinct}
use rag_system.Memory.Conversation.{
  Turn, Conversation, Printing, from_end, before_end, summary_of, tokens_of, add_turn,
  summarize_older_turns,
}

module _ {A : Type 0} where
  length-drop : (n : ℕ) (xs : List A) → length (drop n xs) ≡ length xs - n
  length-drop zero [] = omega arith
  length-drop zero (x ∷ xs) = omega arith
  length-drop (suc n) [] = omega arith
  length-drop (suc n) (x ∷ xs) = omega (arith, length-drop n xs)

  take-drop : (n : ℕ) (xs : List A) → take n xs ++ drop n xs ≡ xs
  take-drop zero [] = refl
  take-drop zero (x ∷ xs) = refl
  take-drop (suc n) [] = refl
  take-drop (suc n) (x ∷ xs) = ap (λ ys. x ∷ ys) (take-drop n xs)

  length-from_end : (n : ℕ) (xs : List A) → 1 ≤ n → length (from_end n xs) ≤ n
  unfolding from_end
  length-from_end n xs le = ground (arith, le, length-drop (length xs - n) xs)

  before_end-from_end : (n : ℕ) (xs : List A) → before_end n xs ++ from_end n xs ≡ xs
  unfolding before_end from_end
  before_end-from_end n xs = elim (Bool-cases (n == 0)) [
    | inl nothing ↦ rw nothing refl
    | inr something ↦ rw something (take-drop (length xs - n) xs)
  ]

  shorter-from_end : (n : ℕ) (xs : List A) → length (from_end n xs) ≤ length xs
  unfolding from_end
  shorter-from_end n xs = ground (arith, length-drop (length xs - n) xs)

  exact-from_end :
      (n : ℕ) (xs : List A)
      → n < length xs
      → length (from_end n xs) ≡ (if n == 0 then length xs else n)
  unfolding from_end
  exact-from_end n xs le = ground (arith, le, length-drop (length xs - n) xs)

  drop-append :
      (n : ℕ) (xs : List A) (y : A)
      → n ≤ length xs
      → drop n (xs ++ (y ∷ [])) ≡ drop n xs ++ (y ∷ [])
  drop-append zero [] y le = refl
  drop-append zero (x ∷ xs) y le = refl
  drop-append (suc n) [] y le = ground (arith, le)
  drop-append (suc n) (x ∷ xs) y le = drop-append n xs y (omega (arith, le))

  newest_last :
      (xs : List A) (y : A) → from_end 3 (xs ++ (y ∷ [])) ≡ drop (length xs + 1 - 3) xs ++ (y ∷ [])
  unfolding from_end
  newest_last xs y =
      rw (length-append xs (y ∷ [])) (drop-append (length xs + 1 - 3) xs y (omega arith))

module _ (w : Words) where
  tokens-append : (ts us : List Turn) → tokens_of w (ts ++ us) ≡ tokens_of w ts + tokens_of w us
  unfolding tokens_of
  tokens-append [] us = omega arith
  tokens-append (t ∷ ts) us = omega (arith, tokens-append ts us)

  tokens-from_end : (n : ℕ) (ts : List Turn) → tokens_of w (from_end n ts) ≤ tokens_of w ts
  tokens-from_end n ts = omega (
    arith,
    ap (tokens_of w) (before_end-from_end n ts),
    tokens-append (before_end n ts) (from_end n ts),
  )

  -- The estimate of tokens is never below what the turns have, and the bounds hold.
  abbrev pub IsWithin : Conversation → Type 0
  IsWithin c =
      (Distinct c.entity_tracker.entities
        × (length c.entity_tracker.entities ≤ c.entity_tracker.max_entities))
      × (length c.turns ≤ c.max_turns_stored)
      × (length c.summaries ≤ 3)
      × (tokens_of w c.turns ≤ c.total_token_estimate)

  abbrev pub SameLimits : Conversation → Conversation → Type 0
  SameLimits c c' =
      (c'.max_turns_stored ≡ c.max_turns_stored)
      × (c'.entity_tracker.max_entities ≡ c.entity_tracker.max_entities)

  pub add_turn-IsWithin :
      (role content : String) (c : Conversation)
      → 1 ≤ c.max_turns_stored
      → IsWithin c
      → IsWithin (add_turn w role content c) × SameLimits c (add_turn w role content c)
  unfolding add_turn
  add_turn-IsWithin role content c pos ((names, few), turns, summaries, tokens) =
      let (names', few', same) = track-Distinct w content c.entity_tracker names in
      let ts = c.turns ++ (record { role = role; content = content } ∷ []) in
      let more : tokens_of w ts ≤ c.total_token_estimate + w.size content / 4 =
        unfold tokens_of in
        omega
          (arith, tokens, tokens-append c.turns (record { role = role; content = content } ∷ [])) in
      elim (Bool-cases (ltb c.max_turns_stored (length ts))) [
        | inl many ↦ rw many (
          (
            (names', omega (arith, few', same)),
            length-from_end c.max_turns_stored ts pos,
            summaries,
            omega (arith, more, tokens-from_end c.max_turns_stored ts),
          ),
          (refl, same),
        )
        | inr enough ↦ rw enough (
          ((names', omega (arith, few', same)), ground (arith, enough), summaries, more),
          (refl, same),
        )
      ]

  module _ (p : Printing) where
    pub summarize_older_turns-IsWithin :
        (keep_recent : ℕ) (c : Conversation)
        → IsWithin c
        → IsWithin (summarize_older_turns w p keep_recent c)
          × SameLimits c (summarize_older_turns w p keep_recent c)
    unfolding summarize_older_turns
    summarize_older_turns-IsWithin keep_recent c (tracked, turns, summaries, tokens) =
        let recent = from_end keep_recent c.turns in
        let ss = c.summaries ++ (summary_of p (before_end keep_recent c.turns) ∷ []) in
        let fewer = shorter-from_end keep_recent c.turns in
        elim (Bool-cases (leb (length c.turns) keep_recent)) [
          | inl short ↦ rw short ((tracked, turns, summaries, tokens), (refl, refl))
          | inr long ↦ elim (Bool-cases (ltb 3 (length ss))) [
            | inl many ↦
                rw (long, many)
                  (
                    (
                      tracked,
                      omega (arith, fewer, turns),
                      length-from_end 3 ss (omega arith),
                      omega arith,
                    ),
                    (refl, refl),
                  )
            | inr few ↦
                rw (long, few)
                  (
                    (tracked, omega (arith, fewer, turns), ground (arith, few), omega arith),
                    (refl, refl),
                  )
          ]
        ]

    -- Where there are not more turns than are to be kept, nothing changes. Else the turns are cut in two:
    -- the newer part, of as many turns as are to be kept, stays, the estimate is what its turns have, and
    -- the newest summary is that of the older part. To keep no turn keeps them all, and makes a summary
    -- of nothing.
    pub summarize_older_turns_lem :
        (keep_recent : ℕ) (c : Conversation)
        → let c' = summarize_older_turns w p keep_recent c in
          (length c.turns ≤ keep_recent → c' ≡ c)
          × (keep_recent < length c.turns
              → (older : List Turn) × (earlier : List String) × (older ++ c'.turns ≡ c.turns)
                × (length c'.turns ≡ (if keep_recent == 0 then length c.turns else keep_recent))
                × (c'.total_token_estimate ≡ tokens_of w c'.turns)
                × (c'.summaries ≡ earlier ++ (summary_of p older ∷ [])))
    unfolding summarize_older_turns
    summarize_older_turns_lem keep_recent c = (
      (λ short.
          let e : leb (length c.turns) keep_recent ≡ true = ground (arith, short) in rw e refl),
      λ long.
          let e : leb (length c.turns) keep_recent ≡ false = ground (arith, long) in
          let older = before_end keep_recent c.turns in
          let cut = before_end-from_end keep_recent c.turns in
          let left = exact-from_end keep_recent c.turns long in
          elim (Bool-cases (ltb 3 (length (c.summaries ++ (summary_of p older ∷ []))))) [
            | inl many ↦
                rw (e, many)
                  (
                    older,
                    drop (length c.summaries + 1 - 3) c.summaries,
                    cut,
                    left,
                    refl,
                    newest_last c.summaries (summary_of p older),
                  )
            | inr few ↦ rw (e, few) (older, c.summaries, cut, left, refl, refl)
          ],
    )
