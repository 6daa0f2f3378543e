-- ===== src/Orchestrator/Tests.antt =====
-- Runs of the graph, and its theorems at concrete inputs.
use rag_system.Base.{◌≡◌, refl, true, false, String, some, none, [], ◌∷◌, str_eq}
use rag_system.Orchestrator.{Hit, Config, check_confidence}
use rag_system.Orchestrator.Graph.{
  RagState, rewriting, finished, Replies, Execution, seen, kept, confidence_route,
}

abbrev defaults : Config
defaults = record {
  max_retrieval_loops = 3;
  max_verify_loops = 2;
  reflection_depth = 2;
  reflection_enabled = true;
  hallucination_check_enabled = true;
  self_critique_enabled = true;
  confidence_threshold = 600;
  use_graph_expansion = true;
  is_blank = λ s. str_eq s " ";
}

abbrev question : RagState String String
question = record {
  query = "How to deploy?";
  rewritten_query = none;
  rewrite_count = 0;
  retrieved_chunks = [];
  reranked_chunks = [];
  graph_context = "";
  context = "";
  answer = "";
  tool_calls = "search" ∷ [];
  tool_results = [];
  tool_loop_count = 0;
}

abbrev hit : Hit
hit = record { text = "Deployment guide"; score = 500 }

-- Low scores, low confidence, and an answer that is never fully supported
abbrev doubtful : Replies String String
doubtful = record {
  rewritten = some "deployment";
  hits = some (hit ∷ []);
  rank = λ hs. hs;
  related = none;
  assemble = λ hs. "context";
  generated = some "By hand.";
  handle = λ c. "nothing found";
  confidence = 100;
  critique = some (some 2);
  supported = some false;
}

abbrev start : Execution String String
start = record { node = rewriting; state = question }

-- Without a confidence, nothing asks for another round.
ends_after : confidence_route (kept (check_confidence defaults 100 (seen question))) ≡ finished
unfolding confidence_route kept seen check_confidence
ends_after = refl
