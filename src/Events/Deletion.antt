-- ===== src/Events/Deletion.antt =====
-- etl/scheduler/event_processor.py: what a deletion event removes.
use rag_system.Base.{
  ℕ, ◌≤◌, Bool, true, false, String, Option, some, none, [], ◌∷◌, ◌≡◌, ◌⊎◌, refl, sym, ap, ◌∙◌,
  arith, str_eq, eq_iff, if◌then◌else◌, Bool-cases, inl, inr,
}
use Prim.Native.String.{◌++◌ as str_append, count}
use text.Mathlib.Text.{starts_with}
use text.Mathlib.TextLemmas.{length-append}
use rag_system.Base.Dict
use rag_system.Base.Dict.{Dict}
use rag_system.Versions.{Chunk}
use rag_system.Events.Documents.{
  Strings, Event, Payload, Document, push_document, described_document, gitlab_document,
}
use rag_system.Events.Processor.{
  Calls, EventProcessor, Source, ensure_components, delete_document, normalize_document_id,
  without_source, delete_by_source_id, deletion_event, process_event, is_deletion,
}

-- A point that is found, where it is of another source
abbrev pub unless_of : String → Option (Chunk Source) → Option (Chunk Source)
unless_of id none = none
unless_of id (some c) = if str_eq c.metadata.source_id id then none else some c

get-without_source :
    (h id : String) (d : Dict (Chunk Source))
    → Dict.Distinct d
    → Dict.get h (without_source id d) ≡ unless_of id (Dict.get h d)
unfolding without_source Dict.get
get-without_source h id [] distinct = refl
get-without_source h id ((k, c) ∷ d) (single, distinct) =
    let later = get-without_source h id d distinct in
    elim (Bool-cases (str_eq k h)) [
      | inl same ↦
          let here = ap (λ i. Dict.get i d) ((eq_iff k h).0 same) in
          ground (arith, same, single, here, later)
      | inr other ↦ ground (arith, other, later)
    ]

longer : (p s : String) → 1 ≤ count p → str_eq (str_append p s) "" ≡ false
longer p s h = elim (Bool-cases (str_eq (str_append p s) "")) [
  | inl empty ↦
      let none_left = ap count ((eq_iff (str_append p s) "").0 empty) in
      ground (arith, h, none_left, length-append p s)
  | inr more ↦ more
]

prefixed :
    (p s : String)
    → 1 ≤ count p
    → starts_with "" p ≡ false
    → str_eq (if starts_with s p then s else str_append p s) "" ≡ false
prefixed p s h other = elim (Bool-cases (starts_with s p)) [
  | inl starts ↦ elim (Bool-cases (str_eq s "")) [
    | inl empty ↦
        let here = ap (λ t. starts_with t p) ((eq_iff s "").0 empty) in
        ground (arith, starts, here, other)
    | inr more ↦ rw starts more
  ]
  | inr new ↦ rw new (longer p s h)
]

normalized :
    (source doc_id : String)
    → (source ≡ "confluence") ⊎ (source ≡ "gitlab")
    → str_eq (normalize_document_id source doc_id) "" ≡ false
unfolding normalize_document_id
normalized source doc_id h = elim h [
  | inl p ↦
      ap (λ s. str_eq (normalize_document_id s doc_id) "") p
      ∙ prefixed "confluence_" doc_id (omega arith) refl
  | inr p ↦
      ap (λ s. str_eq (normalize_document_id s doc_id) "") p
      ∙ prefixed "gitlab_" doc_id (omega arith) refl
]

known_source :
    (e : Event)
    → is_deletion e ≡ true
    → ((e.source ≡ "confluence") ⊎ (e.source ≡ "gitlab")) × (str_eq e.source "" ≡ false)
known_source e h = elim (Bool-cases (str_eq e.source "confluence")) [
  | inl p ↦ let same = (eq_iff e.source "confluence").0 p in (inl same, ap (λ s. str_eq s "") same)
  | inr other ↦
      let same = (eq_iff e.source "gitlab").0 (ground (arith, h, other)) in
      (inr same, ap (λ s. str_eq s "") same)
]

-- A deletion event of a source that the processor knows, with a payload that is JSON and with the
-- components there, is acknowledged whether the search in Qdrant fails or not. Where it fails,
-- the points stay as they are; where not, exactly the points of the normalized document id are
-- gone. No hash is there twice.
pub deletion_event_lem :
    (strings : Strings) (batch_size : ℕ) (calls : Calls) (e : Event) (p : Payload)
    (s : EventProcessor)
    → e.payload ≡ some p
    → is_deletion e ≡ true
    → (ensure_components calls s).0 ≡ true
    → Dict.Distinct s.points
    → let (acked, s') = process_event strings batch_size calls e s in
      let id = normalize_document_id e.source e.doc_id in
      (acked ≡ true)
      × ((h : String)
          → Dict.get h s'.points ≡ (
              if calls.search_fails
              then Dict.get h s.points
              else unless_of id (Dict.get h s.points)))
unfolding process_event deletion_event delete_document delete_by_source_id ensure_components
deletion_event_lem strings batch_size calls e p s json deletion ready distinct =
    let (source, named) = known_source e deletion in
    let id = normalize_document_id e.source e.doc_id in
    (
      ground (arith, json, deletion, ready, named),
      λ h. ground (
        arith,
        json,
        deletion,
        ready,
        named,
        normalized e.source e.doc_id source,
        get-without_source h id s.points distinct,
      ),
    )

longer_id : (p d : String) → 8 ≤ count p → str_eq (str_append p d) (str_append "gitlab_" d) ≡ false
longer_id p d h =
    let ids = str_eq (str_append p d) (str_append "gitlab_" d) in
    elim (Bool-cases ids) [
      | inl same ↦
          let sizes = ap count ((eq_iff (str_append p d) (str_append "gitlab_" d)).0 same) in
          ground (arith, h, sizes, length-append p d, length-append "gitlab_" d)
      | inr other ↦ other
    ]

abbrev has_id : String → Option Document → Bool
has_id id none = false
has_id id (some document) = str_eq document.id id

gitlab_ids :
    (strings : Strings) (t d : String) (p : Payload)
    → starts_with d "gitlab_" ≡ false
    → has_id (normalize_document_id "gitlab" d) (gitlab_document strings t d p) ≡ false
unfolding gitlab_document push_document described_document normalize_document_id
gitlab_ids strings t d p raw = ground (
  arith,
  raw,
  longer_id "gitlab_push_" d (omega arith),
  longer_id "gitlab_mr_" d (omega arith),
  longer_id "gitlab_wiki_" d (omega arith),
)

-- The points of a document that a push, a merge request or a wiki page of GitLab gave stay behind
-- an acknowledged deletion event with the same document id, where that id does not begin with
-- `gitlab_`, the deletion has a payload that is JSON, the components are there, and no hash is there
-- twice.
pub gitlab_documents_stay :
    (strings : Strings) (batch_size : ℕ) (calls : Calls) (e : Event) (p : Payload)
    (s : EventProcessor) (t : String) (content : Payload) (document : Document) (h : String)
    (c : Chunk Source)
    → gitlab_document strings t e.doc_id content ≡ some document
    → c.metadata.source_id ≡ document.id
    → Dict.get h s.points ≡ some c
    → starts_with e.doc_id "gitlab_" ≡ false
    → e.source ≡ "gitlab"
    → e.payload ≡ some p
    → is_deletion e ≡ true
    → (ensure_components calls s).0 ≡ true
    → Dict.Distinct s.points
    → let (acked, s') = process_event strings batch_size calls e s in
      (acked ≡ true) × (Dict.get h s'.points ≡ some c)
gitlab_documents_stay strings batch_size calls e p s t content document h c made own found raw
      gitlab json deletion ready distinct =
    let (acked, points) =
      deletion_event_lem strings batch_size calls e p s json deletion ready distinct in
    let id = normalize_document_id e.source e.doc_id in
    let ids = ap (λ source. str_eq document.id (normalize_document_id source e.doc_id)) gitlab in
    let other = ap (has_id (normalize_document_id "gitlab" e.doc_id)) made in
    let differs : str_eq c.metadata.source_id id ≡ false =
      ap (λ i. str_eq i id) own ∙ ids ∙ sym other ∙ gitlab_ids strings t e.doc_id content raw in
    (acked, ground (arith, points h, found, differs))
