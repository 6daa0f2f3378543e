-- ===== src/Context/Budget.antt =====
-- proxy/app/domain/value_objects.py, TokenBudget, and the budgets of
-- proxy/app/core/token_optimizer.py. Numbers of tokens are natural.
use rag_system.Base.{
  ℕ, ◌+◌, ◌-◌, ◌*◌, ◌/◌, min, max, Bool, leb, ltb, Option, none, some, List, [], ◌∷◌, if◌then◌else◌,
}

pub record TokenBudget : Type 0 where
  pub total : ℕ
  pub used : ℕ
  pub reserved : ℕ

unfoldable pub remaining : TokenBudget → ℕ
remaining b = b.total - b.used - b.reserved

unfoldable pub can_fit : ℕ → TokenBudget → Bool
unfolding remaining
can_fit tokens b = leb tokens (remaining b)

unfoldable pub allocate : ℕ → TokenBudget → TokenBudget
allocate tokens b = record b { used = b.used + tokens }

unfoldable pub build_token_budget : ℕ → ℕ → TokenBudget
build_token_budget available_tokens reserved = record {
  total = available_tokens;
  used = 0;
  reserved = reserved;
}

-- The dictionary of `smart_token_budget`: below a thousand tokens it has no `context_per_chunk`.
pub record Allocation : Type 0 where
  pub system_prompt : ℕ
  pub context_total : ℕ
  pub context_per_chunk : Option ℕ
  pub history : ℕ
  pub response : ℕ

-- The test `context_total < 0`, with what is subtracted on the other side
unfoldable pub smart_token_budget : ℕ → ℕ → Allocation
smart_token_budget available num_chunks =
    if ltb available 1000
    then record {
      system_prompt = max 50 (available / 5);
      context_total = max 100 (available * 3 / 5);
      context_per_chunk = none;
      history = 0;
      response = max 50 (available / 5);
    }
    else let system_prompt = min 2000 (available / 10) in
      let response = min 4096 (available / 5) in
      let history = min 8000 (available / 6) in
      let is_negative = ltb available (system_prompt + response + history) in
      let context_total =
        if is_negative
        then max 100 (available * 2 / 3)
        else available - system_prompt - response - history in
      record {
        system_prompt = system_prompt;
        context_total = context_total;
        context_per_chunk = some (
            if ltb 0 num_chunks then max 100 (context_total / max 1 num_chunks) else context_total);
        history = if is_negative then 0 else history;
        response = response;
      }

unfoldable pub token_budget_from_dict : Allocation → TokenBudget
token_budget_from_dict a =
    let total =
      a.system_prompt
      + a.context_total
      + a.history
      + a.response
      + (elim a.context_per_chunk [ none ↦ 0 | some n ↦ n ]) in
    record { total = total; used = 0; reserved = total }

module _ {A : Type 0} (estimate : A → ℕ) where
  -- The loop, with the tokens that are used and those that remained before it
  unfoldable pub fit_chunks : ℕ → ℕ → List A → List A × ℕ
  fit_chunks used left [] = ([], used)
  fit_chunks used left (c ∷ cs) =
      let (selected, used') = fit_chunks (used + estimate c) left cs in
      if ltb left (used + estimate c) then ([], used) else (c ∷ selected, used')

  unfoldable pub fit_chunks_into_budget : List A → TokenBudget → List A × TokenBudget
  unfolding fit_chunks remaining allocate
  fit_chunks_into_budget chunks b =
      let (selected, used) = fit_chunks b.used (remaining b) chunks in
      (selected, allocate (used - b.used) b)
