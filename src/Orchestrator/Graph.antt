-- ===== src/Orchestrator/Graph.antt =====
-- proxy/app/core/orchestrator/graph.py: the edges between the nodes. The runtime, LangGraph,
-- merges what a node returns into the state, and then follows the node's edge: one step here. By its
-- documentation it keeps the keys that RAGState declares and drops all others, and refuses the update of a
-- node that returns neither a dictionary nor a command.
use rag_system.Base.{
  false, none, ℕ, zero, suc, Bool, ◌&&◌, not, String, Option, some, none, List, ltb, if◌then◌else◌,
}
use rag_system.Orchestrator.{
  Hit, Config, NodeState, is_empty, rewrite_query, retrieve, rerank, graph_expand, build_context,
  call_tools, check_confidence, self_critique, self_reflection,
}

-- The state of the graph: what RAGState declares, as far as a node reads it
pub record RagState (ToolCall ToolResult : Type 0) : Type 0 where
  pub query : String
  pub rewritten_query : Option String
  pub rewrite_count : ℕ
  pub retrieved_chunks : List Hit
  pub reranked_chunks : List Hit
  pub graph_context : String
  pub context : String
  pub answer : String
  pub tool_calls : List ToolCall
  pub tool_results : List ToolResult
  pub tool_loop_count : ℕ

-- `finished` is END, `failed` is a node that raises, and `refused` is the error of the runtime on a node
-- that returns a text.
pub data Node : Type 0 where
  rewriting retrieving checking_sufficiency reranking expanding building_context generating
        calling_tools reflecting checking_confidence critiquing finished failed refused :
      Node

-- What the calls of one step give, whichever node it is.
pub record Replies (C R : Type 0) : Type 0 where
  pub rewritten : Option String
  pub hits : Option (List Hit)
  pub rank : List Hit → List Hit
  pub related : Option String
  pub assemble : List Hit → String
  pub generated : Option String
  pub handle : C → R
  pub confidence : ℕ
  pub critique : Option (Option ℕ)
  pub supported : Option Bool

pub record Execution (C R : Type 0) : Type 0 where
  pub node : Node
  pub state : RagState C R

module _ {C R : Type 0} where
  -- What a node gets: keys that are not declared are never there, and have the default of `get`.
  unfoldable pub seen : RagState C R → NodeState C R
  seen s = record {
    query = s.query;
    rewritten_query = s.rewritten_query;
    rewrite_count = s.rewrite_count;
    retrieved_chunks = s.retrieved_chunks;
    reranked_chunks = s.reranked_chunks;
    graph_context = s.graph_context;
    context = s.context;
    answer = s.answer;
    tool_calls = s.tool_calls;
    tool_results = s.tool_results;
    tool_loop_count = s.tool_loop_count;
    confidence = none;
    needs_escalation = false;
    needs_self_critique = false;
    needs_rewrite = false;
    needs_reflection = false;
    reflection_count = 0;
    self_critique_score = 0;
    self_critique_count = 0;
    max_rewrites = 2;
  }

  unfoldable pub kept : NodeState C R → RagState C R
  kept s = record {
    query = s.query;
    rewritten_query = s.rewritten_query;
    rewrite_count = s.rewrite_count;
    retrieved_chunks = s.retrieved_chunks;
    reranked_chunks = s.reranked_chunks;
    graph_context = s.graph_context;
    context = s.context;
    answer = s.answer;
    tool_calls = s.tool_calls;
    tool_results = s.tool_results;
    tool_loop_count = s.tool_loop_count;
  }

  unfoldable pub route_after_generate : RagState C R → Node
  route_after_generate s =
      if not (is_empty s.tool_calls) && ltb s.tool_loop_count 5 then calling_tools else reflecting

  unfoldable pub self_reflection_route : RagState C R → Node
  self_reflection_route s = if (seen s).needs_reflection then retrieving else checking_confidence

  unfoldable pub confidence_route : RagState C R → Node
  confidence_route s =
      if (seen s).needs_escalation
      then rewriting
      else if (seen s).needs_self_critique
      then critiquing
      else finished

  unfoldable pub self_critique_route : RagState C R → Node
  self_critique_route s = if (seen s).needs_rewrite then rewriting else finished

  module _ (config : Config) where
    unfoldable pub step_at : Node → Replies C R → RagState C R → Execution C R
    step_at rewriting e s = record {
      node = retrieving;
      state = kept (rewrite_query config e.rewritten (seen s));
    }
    step_at retrieving e s = record {
      node = checking_sufficiency;
      state = kept (retrieve e.hits (seen s));
    }
    -- The node is the function of the route, which returns a text: the route is not reached.
    step_at checking_sufficiency e s = record { node = refused; state = s }
    step_at reranking e s = record { node = expanding; state = kept (rerank e.rank (seen s)) }
    step_at expanding e s = record {
      node = building_context;
      state = kept (graph_expand config e.related (seen s));
    }
    step_at building_context e s = record {
      node = generating;
      state = kept (build_context e.assemble (seen s));
    }
    step_at generating e s = elim e.generated [
      | some answer ↦
          let s' = record s { answer = answer } in
          record { node = route_after_generate s'; state = s' }
      | none ↦ record { node = failed; state = s }
    ]
    step_at calling_tools e s = record {
      node = generating;
      state = kept (call_tools e.handle (seen s));
    }
    step_at reflecting e s =
        let s' = kept (self_reflection config e.supported (seen s)) in
        record { node = self_reflection_route s'; state = s' }
    step_at checking_confidence e s =
        let s' = kept (check_confidence config e.confidence (seen s)) in
        record { node = confidence_route s'; state = s' }
    step_at critiquing e s =
        let s' = kept (self_critique config e.critique (seen s)) in
        record { node = self_critique_route s'; state = s' }
    step_at finished e s = record { node = finished; state = s }
    step_at failed e s = record { node = failed; state = s }
    step_at refused e s = record { node = refused; state = s }

    unfoldable pub step : Replies C R → Execution C R → Execution C R
    unfolding step_at
    step e x = step_at x.node e x.state

    -- The first `n` steps, with the replies to each
    unfoldable pub run : ℕ → (ℕ → Replies C R) → Execution C R → Execution C R
    unfolding step
    run zero replies x = x
    run (suc n) replies x = run n (λ i. replies (suc i)) (step (replies 0) x)
