-- ===== src/Events/Documents.antt =====
-- etl/scheduler/event_processor.py: the documents that events are mapped to.
use rag_system.Base.{
  take, ℕ, Bool, ◌||◌, String, Option, some, none, List, [], ◌∷◌, ◌++◌, str_eq, if◌then◌else◌,
}
use Prim.Native.String.{◌++◌ as str_append}
use text.Mathlib.Text.{starts_with}

-- Python's `not s.strip()`, `s[:n]`, and `"\n".join`
pub record Strings : Type 0 where
  pub is_blank : String → Bool
  pub first : ℕ → String → String
  pub join_lines : List String → String

pub record Commit : Type 0 where
  pub message : String
  pub diffs : List (String × String)

-- What the keys of a payload give: the empty text where there is none.
pub record Payload : Type 0 where
  pub title : String
  pub body_storage : String
  pub body_view : String
  pub body_storage_raw : String
  pub version : String
  pub project_name : Option String
  pub commits : List Commit
  pub description : String
  pub content : String

-- `payload` is `none` where it is no JSON.
pub record Event : Type 0 where
  pub source : String
  pub event_type : String
  pub doc_id : String
  pub payload : Option Payload

pub record Document : Type 0 where
  pub id : String
  pub source_type : String
  pub title : String
  pub content : String
  pub content_type : String
  pub version : String

-- `a or b`
abbrev pub or_else : String → String → String
or_else a b = if str_eq a "" then b else a

module _ (strings : Strings) where
  unfoldable pub confluence_document : String → Payload → Option Document
  confluence_document doc_id p =
      let content = or_else p.body_storage (or_else p.body_view p.body_storage_raw) in
      if strings.is_blank content
      then none
      else some (record {
        id = if starts_with doc_id "confluence_" then doc_id else str_append "confluence_" doc_id;
        source_type = "confluence";
        title = p.title;
        content = content;
        content_type = "html";
        version = p.version;
      })

  unfoldable pub diff_parts : List (String × String) → List String
  diff_parts [] = []
  diff_parts ((path, diff) ∷ ds) =
      str_append path (str_append ": " (strings.first 200 diff)) ∷ diff_parts ds

  unfoldable pub commit_parts : List Commit → List String
  unfolding diff_parts
  commit_parts [] = []
  commit_parts (c ∷ cs) =
      let rest = commit_parts cs in
      let diffs = diff_parts (take 5 c.diffs) in
      if str_eq c.message "" then diffs ++ rest else c.message ∷ (diffs ++ rest)

  unfoldable pub push_document : String → Payload → Option Document
  unfolding commit_parts
  push_document doc_id p =
      let project_name : String = elim p.project_name [ none ↦ doc_id | some n ↦ n ] in
      let content = strings.join_lines (commit_parts (take 100 p.commits)) in
      if strings.is_blank content
      then none
      else some (record {
        id = if starts_with doc_id "gitlab_" then doc_id else str_append "gitlab_push_" doc_id;
        source_type = "gitlab_commit";
        title = str_append "Push to " project_name;
        content = content;
        content_type = "markdown";
        version = "latest";
      })

  unfoldable pub described_document : Bool → String → Payload → Option Document
  described_document is_merge doc_id p =
      let content = or_else p.description (or_else p.content p.title) in
      let prefix = if is_merge then "gitlab_mr_" else "gitlab_wiki_" in
      if strings.is_blank content
      then none
      else some (record {
        id = if starts_with doc_id "gitlab_" then doc_id else str_append prefix doc_id;
        source_type = if is_merge then "gitlab_merge_request" else "gitlab_wiki";
        title = p.title;
        content = content;
        content_type = "markdown";
        version = "latest";
      })

  unfoldable pub gitlab_document : String → String → Payload → Option Document
  unfolding push_document described_document
  gitlab_document event_type doc_id p =
      if str_eq event_type "push"
      then push_document doc_id p
      else if str_eq event_type "merge_request" || str_eq event_type "wiki_page"
      then described_document (str_eq event_type "merge_request") doc_id p
      else none

  unfoldable pub is_skipped : String → Bool
  is_skipped t =
      str_eq t "comment_created" || str_eq t "comment_updated" || str_eq t "comment_removed"

  unfoldable pub event_to_document : Event → Payload → Option Document
  unfolding confluence_document gitlab_document is_skipped
  event_to_document e p =
      if is_skipped e.event_type
      then none
      else if str_eq e.source "confluence"
      then confluence_document e.doc_id p
      else if str_eq e.source "gitlab"
      then gitlab_document e.event_type e.doc_id p
      else none
