-- ===== src/Context/Compression.antt =====
-- proxy/app/core/token_optimizer.py: the compression of a context by relevance, by summaries and by
-- tiers. The parts of the result are kept apart, before they are joined.
use rag_system.Base.{
  take, ◌++◌, refl, ap, ℕ, suc, ◌+◌, ◌-◌, ◌*◌, ◌/◌, ◌≤◌, max, ltb, str_eq, String, List, [], ◌∷◌,
  ◌≡◌, length, filter, not, map, arith, if◌then◌else◌, Bool-cases, inl, inr,
}

-- Python's operations on texts: `s.strip()`, `s[:n]`, `len`, the sentences of a regular expression,
-- and `" ".join`. The estimated cost is that of `estimate_token_cost`, or any other.
pub record Texts : Type 0 where
  pub strip : String → String
  pub first : ℕ → String → String
  pub len : String → ℕ
  pub sentences : String → List String
  pub join_words : List String → String
  pub estimate : String → ℕ

module _ (t : Texts) where
  unfoldable pub cut_parts : ℕ → ℕ → ℕ → List String → List String
  cut_parts budget per_chunk used [] = []
  cut_parts budget per_chunk used (text ∷ texts) =
      let rest = cut_parts budget per_chunk (used + per_chunk) texts in
      let skipped = cut_parts budget per_chunk used texts in
      let s = t.strip text in
      if str_eq s ""
      then skipped
      else if ltb budget (used + per_chunk)
      then (if ltb 50 (budget - used) then t.first ((budget - used) * 4) s ∷ [] else [])
      else t.first (per_chunk * 4) s ∷ rest

  unfoldable pub compress_relevance : List String → ℕ → List String
  unfolding cut_parts
  compress_relevance texts max_tokens =
      cut_parts max_tokens (max 50 (max_tokens / max 1 (length texts))) 0 texts

  -- The loop of the summaries and of the tiers: the segments that fit, and a last one cut where more
  -- than `least` tokens remain
  unfoldable pub pack : ℕ → ℕ → ℕ → List String → List String
  pack budget least used [] = []
  pack budget least used (segment ∷ segments) =
      let cost = t.estimate segment in
      let rest = pack budget least (used + cost) segments in
      if ltb budget (used + cost)
      then (if ltb least (budget - used) then t.first ((budget - used) * 4) segment ∷ [] else [])
      else segment ∷ rest

  abbrev pub texts_of : List String → List String
  texts_of texts = filter (λ s. not (str_eq s "")) (map t.strip texts)

  unfoldable pub compress_summary : List String → ℕ → List String
  unfolding pack
  compress_summary texts max_tokens =
      pack max_tokens 20 0 (map (λ s. t.join_words (take 2 (t.sentences s))) (texts_of texts))

  -- A text without sentences gives its first 200 characters.
  unfoldable pub heading : String → List String → String
  heading text [] = t.first 200 text
  heading text (s ∷ ss) = s

  -- The segments from the chunk at an index on; empty texts count.
  unfoldable pub tiers : ℕ → List String → List String
  unfolding heading
  tiers i [] = []
  tiers i (text ∷ texts) =
      let rest = tiers (suc i) texts in
      let s = t.strip text in
      let segment =
        if ltb i 3
        then s
        else if ltb i 8
        then t.join_words (take 3 (t.sentences s))
        else heading s (t.sentences s) in
      if str_eq s "" then rest else segment ∷ rest

  unfoldable pub compress_hierarchical : List String → ℕ → List String
  unfolding pack tiers
  compress_hierarchical texts max_tokens = pack max_tokens 50 0 (tiers 0 texts)

  abbrev pub total_len : List String → ℕ
  total_len [] = 0
  total_len (s ∷ ss) = t.len s + total_len ss

  abbrev pub total_cost : List String → ℕ
  total_cost [] = 0
  total_cost (s ∷ ss) = t.estimate s + total_cost ss

  abbrev pub Fits : ℕ → List String → Type 0
  Fits budget parts =
      (whole : List String) × (rest : List String) × (parts ≡ whole ++ rest)
      × (total_cost whole ≤ budget)
      × (length rest ≤ 1)
      × (total_len rest ≤ 4 * (budget - total_cost whole))

  module _ (first-Short : (n : ℕ) (s : String) → t.len (t.first n s) ≤ n) where
    cut_parts_lem :
        (budget per_chunk used : ℕ) (texts : List String)
        → total_len (cut_parts budget per_chunk used texts) ≤ 4 * (budget - used)
    unfolding cut_parts
    cut_parts_lem budget per_chunk used [] = omega arith
    cut_parts_lem budget per_chunk used (text ∷ texts) =
        let s = t.strip text in
        ground (
          arith,
          cut_parts_lem budget per_chunk used texts,
          cut_parts_lem budget per_chunk (used + per_chunk) texts,
          first-Short (per_chunk * 4) s,
          first-Short ((budget - used) * 4) s,
        )

    -- The parts of a context that is compressed by relevance have together at most four characters
    -- for each token of the limit, where cutting a text to a length gives no longer one.
    pub compress_relevance_bound :
        (texts : List String) (max_tokens : ℕ)
        → total_len (compress_relevance texts max_tokens) ≤ 4 * max_tokens
    unfolding compress_relevance
    compress_relevance_bound texts max_tokens =
        omega (arith, cut_parts_lem max_tokens (max 50 (max_tokens / max 1 (length texts))) 0 texts)

    -- A first part of the segments in full and at most one more, cut to the rest of the limit
    Packed : ℕ → ℕ → List String → Type 0
    Packed budget used parts =
        (whole : List String) × (rest : List String) × (parts ≡ whole ++ rest)
        × (used + total_cost whole ≤ max used budget)
        × (length rest ≤ 1)
        × (total_len rest ≤ 4 * (budget - used - total_cost whole))

    pack-Packed :
        (budget least used : ℕ) (segments : List String)
        → Packed budget used (pack budget least used segments)
    unfolding pack Packed
    pack-Packed budget least used [] = ([], [], refl, omega arith, omega arith, omega arith)
    pack-Packed budget least used (segment ∷ segments) =
        let cost = t.estimate segment in
        let left = budget - used in
        let (whole, rest, same, fits, one, short) =
          pack-Packed budget least (used + cost) segments in
        elim (Bool-cases (ltb budget (used + cost))) [
          | inl full ↦ elim (Bool-cases (ltb least left)) [
            | inl cut ↦ rw full rw cut (
              [],
              t.first (left * 4) segment ∷ [],
              refl,
              omega arith,
              omega arith,
              omega (arith, first-Short (left * 4) segment),
            )
            | inr none_left ↦
                rw full rw none_left ([], [], refl, omega arith, omega arith, omega arith)
          ]
          | inr room ↦ rw room (
            segment ∷ whole,
            rest,
            ap (λ xs. segment ∷ xs) same,
            ground (arith, room, fits),
            one,
            omega (arith, short),
          )
        ]

    -- A context that is compressed by summaries, or by tiers, consists of segments in full whose
    -- estimated costs together keep the limit, and of at most one segment behind them, which has at
    -- most four characters for each token that they leave; cutting a text to a length gives no longer
    -- one.
    pub compressed_bound :
        (texts : List String) (max_tokens : ℕ)
        → Fits max_tokens (compress_summary texts max_tokens)
          × Fits max_tokens (compress_hierarchical texts max_tokens)
    unfolding compress_summary compress_hierarchical Packed
    compressed_bound texts max_tokens =
        let summaries = map (λ s. t.join_words (take 2 (t.sentences s))) (texts_of texts) in
        let (w, r, same, fits, one, short) = pack-Packed max_tokens 20 0 summaries in
        let (w', r', same', fits', one', short') = pack-Packed max_tokens 50 0 (tiers 0 texts) in
        (
          (w, r, same, omega (arith, fits), one, omega (arith, short)),
          (w', r', same', omega (arith, fits'), one', omega (arith, short')),
        )
