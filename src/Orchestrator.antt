-- ===== src/Orchestrator.antt =====
-- proxy/app/core/orchestrator/nodes.py: the nodes of the graph that answers a question, as updates
-- of the dictionary that they get. What a node gets from outside (a language model, Qdrant, Neo4j, a tool) is an
-- argument, `none` where the call raises. Scores are in thousandths.
use rag_system.Base.{
  ℕ, ◌+◌, ◌*◌, Bool, true, false, not, ◌&&◌, String, Option, some, none, List, [], ◌∷◌, ◌++◌, map,
  length, str_eq, ◌||◌, max, min, leb, ltb, if◌then◌else◌,
}
use Prim.Native.String.{◌++◌ as str_append}
pub mod Graph
pub mod Refusal
mod Tests

pub record Hit : Type 0 where
  pub text : String
  pub score : ℕ

-- The settings of proxy/app/shared/config.py that the nodes read, and Python's test for a text of
-- blanks only.
pub record Config : Type 0 where
  pub max_retrieval_loops : ℕ
  pub max_verify_loops : ℕ
  pub reflection_depth : ℕ
  pub reflection_enabled : Bool
  pub hallucination_check_enabled : Bool
  pub self_critique_enabled : Bool
  pub confidence_threshold : ℕ
  pub use_graph_expansion : Bool
  pub is_blank : String → Bool

-- The dictionary that the nodes read and write, with all their keys: more than the graph keeps, see Graph.
-- `ToolCall` and `ToolResult` are the messages of the tool calls.
pub record NodeState (ToolCall ToolResult : Type 0) : Type 0 where
  pub query : String
  pub rewritten_query : Option String
  pub rewrite_count : ℕ
  pub retrieved_chunks : List Hit
  pub reranked_chunks : List Hit
  pub graph_context : String
  pub context : String
  pub answer : String
  pub tool_calls : List ToolCall
  pub tool_results : List ToolResult
  pub tool_loop_count : ℕ
  pub confidence : Option ℕ
  pub needs_escalation : Bool
  pub needs_self_critique : Bool
  pub needs_rewrite : Bool
  pub needs_reflection : Bool
  pub reflection_count : ℕ
  pub self_critique_score : ℕ
  pub self_critique_count : ℕ
  pub max_rewrites : ℕ

abbrev pub is_empty {ℓ} : {A : Type ℓ} → List A → Bool
is_empty [] = true
is_empty (x ∷ xs) = false

-- `not answer.strip()`, and the empty text
abbrev pub no_text : Config → String → Bool
no_text config s = str_eq s "" || config.is_blank s

abbrev pub total_score : List Hit → ℕ
total_score [] = 0
total_score (c ∷ cs) = c.score + total_score cs

-- The first digit of the critique, if it has one
abbrev pub critique_score : Option ℕ → ℕ
critique_score none = 3
critique_score (some digit) = max 1 (min 5 digit)

module _ {C R : Type 0} where
  -- The hits as the search and the time decay give them
  unfoldable pub retrieve : Option (List Hit) → NodeState C R → NodeState C R
  retrieve none s = record s { retrieved_chunks = [] }
  retrieve (some chunks) s = record s { retrieved_chunks = chunks }

  unfoldable pub rerank : (List Hit → List Hit) → NodeState C R → NodeState C R
  rerank rank s =
      if is_empty s.retrieved_chunks
      then record s { reranked_chunks = [] }
      else record s { reranked_chunks = rank s.retrieved_chunks }

  unfoldable pub build_context : (List Hit → String) → NodeState C R → NodeState C R
  build_context assemble s = record s {
    context = str_append (assemble s.reranked_chunks) s.graph_context;
  }

  -- Each call gives one result, also where the tool fails.
  unfoldable pub call_tools : (C → R) → NodeState C R → NodeState C R
  call_tools handle s = record s {
    tool_results = s.tool_results ++ map handle s.tool_calls;
    tool_loop_count = s.tool_loop_count + 1;
    tool_calls = [];
  }

module _ {C R : Type 0} (config : Config) where
  unfoldable pub rewrite_query : Option String → NodeState C R → NodeState C R
  rewrite_query completion s =
      if leb config.max_retrieval_loops s.rewrite_count
      then record s { rewritten_query = some s.query }
      else elim completion [
        | some rewritten ↦ record s {
          rewritten_query = some rewritten;
          rewrite_count = s.rewrite_count + 1;
        }
        | none ↦ record s { rewritten_query = some s.query; rewrite_count = s.rewrite_count + 1 }
      ]

  -- Whether the query is to be rewritten: `avg_score < 0.6`, with the division moved to the other
  -- side
  unfoldable pub insufficient : NodeState C R → Bool
  insufficient s =
      if is_empty s.retrieved_chunks
      then true
      else ltb (total_score s.retrieved_chunks) (600 * length s.retrieved_chunks)
        && ltb s.rewrite_count config.max_retrieval_loops

  unfoldable pub graph_expand : Option String → NodeState C R → NodeState C R
  graph_expand related s =
      if config.use_graph_expansion
      then elim related [
        | some found ↦ record s { graph_context = found }
        | none ↦ record s { graph_context = "" }
      ]
      else record s { graph_context = "" }

  -- `score` is the confidence that the report gives.
  unfoldable pub check_confidence : ℕ → NodeState C R → NodeState C R
  check_confidence score s =
      if str_eq s.answer ""
      then record s { confidence = none; needs_escalation = false; needs_self_critique = false }
      else if not config.hallucination_check_enabled
      then record s { confidence = some 700; needs_escalation = false; needs_self_critique = false }
      else let escalates =
          ltb score config.confidence_threshold && ltb s.rewrite_count config.max_verify_loops in
        record s {
          confidence = some score;
          needs_escalation = escalates;
          needs_self_critique =
              config.self_critique_enabled
              && not (config.is_blank s.answer)
              && not escalates
              && ltb s.self_critique_count 1;
        }

  unfoldable pub self_critique : Option (Option ℕ) → NodeState C R → NodeState C R
  self_critique critique s =
      if no_text config s.answer
      then record s { self_critique_score = 0; needs_rewrite = false }
      else if leb s.max_rewrites s.rewrite_count
      then record s { self_critique_score = 3; needs_rewrite = false }
      else elim critique [
        | some digit ↦ record s {
          self_critique_score = critique_score digit;
          needs_rewrite = ltb (critique_score digit) 3 && ltb s.rewrite_count s.max_rewrites;
          self_critique_count = s.self_critique_count + 1;
        }
        | none ↦ record s {
          self_critique_score = 3;
          needs_rewrite = false;
          self_critique_count = s.self_critique_count + 1;
        }
      ]

  -- Whether the reply begins with FULLY_SUPPORTED
  unfoldable pub self_reflection : Option Bool → NodeState C R → NodeState C R
  self_reflection supported s =
      if not config.reflection_enabled || no_text config s.answer
      then record s { needs_reflection = false }
      else if leb config.reflection_depth s.reflection_count
      then record s { needs_reflection = false }
      else elim supported [
        | some true ↦ record s {
          needs_reflection = false;
          reflection_count = s.reflection_count + 1;
        }
        | some false ↦ record s {
          needs_reflection = true;
          reflection_count = s.reflection_count + 1;
        }
        | none ↦ record s { needs_reflection = false; reflection_count = s.reflection_count + 1 }
      ]
