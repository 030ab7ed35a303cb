-- ===== src/Ingestion/Labels.antt =====
-- From a connector's access labels to the allow-list of a stored chunk
-- (rust/ingestion/src/pipeline.rs, rust/smooth-operator/src/access_control.rs).
use smooth_agent.Base.{ℕ, String, false, some, List, ◌∷◌, ◌≡◌, ◌≢◌, All, Memᴰ, string_eq}
use smooth_agent.Base.Outcome.{ok}
use smooth_agent.Engine.{KnowledgeResult, Documents, KnowledgeBase}
use smooth_agent.Access.Acl.{AclJson, AccessContext, for_groups, from_metadata}
use smooth_agent.Access.Entitlement.{Entitled, by_public, by_user, by_group}
use smooth_agent.Access.Store.{AclKnowledgeStore, ingest, reader_query}
use smooth_agent.Access.Recording.{from_metadata-attach_to, ingest-confidential}
use smooth_agent.Curation.Meta.{FloatOps}
use smooth_agent.Ingestion.Chunker.{Chunk}
use smooth_agent.Ingestion.Pipeline.{NewDocument, IngestOptions, chunk_document, stamp_acl}

-- Groups alone entitle only who is in one of them.
for_groups-outside :
    (ctx : AccessContext) (groups : List String)
    → ((g : String) → Memᴰ g ctx.groups → Memᴰ g groups → ⊥)
    → Entitled ctx (for_groups groups)
    → ⊥
for_groups-outside ctx groups outside (by_public p) = cc
for_groups-outside ctx groups outside (by_user uid q m) = elim m [ ]
for_groups-outside ctx groups outside (by_group g mine listed) = outside g mine listed

module _ (docs : Documents) (make : NewDocument docs.Document) {Score : Type 0}
    (float : FloatOps Score) (json : AclJson) (options : IngestOptions make.DocumentType Score)
    (doc_id : String) (c : Chunk) where
  -- The document that is stored for a chunk with labels is stamped with exactly the groups of its
  -- labels, whatever metadata the connector supplied, if the JSON codec reads back what it wrote.
  pub chunk_document-acl :
      (label : String) (labels : List String)
      → c.acl ≡ some (label ∷ labels)
      → json.from_str (json.to_string (for_groups (label ∷ labels)))
        ≡ some (for_groups (label ∷ labels))
      → from_metadata json (docs.metadata (chunk_document docs make float json options doc_id c))
        ≡ some (for_groups (label ∷ labels))
  unfolding chunk_document stamp_acl
  chunk_document-acl label labels e codec =
      rw e (from_metadata-attach_to json docs (for_groups (label ∷ labels)) _ codec)

  -- A labelled chunk that is stored through the access-controlled store is never disclosed to a
  -- requester who is in none of its labels' groups, if the lock is healthy and the JSON codec reads
  -- back what it wrote.
  pub chunk-confidential :
      (label : String) (labels : List String) (kb : KnowledgeBase docs.Document Score)
      (s : AclKnowledgeStore kb.State) (ctx : AccessContext) (text : String) (limit : ℕ)
      (out : List (KnowledgeResult Score))
      → c.acl ≡ some (label ∷ labels)
      → json.from_str (json.to_string (for_groups (label ∷ labels)))
        ≡ some (for_groups (label ∷ labels))
      → s.acls.poisoned ≡ false
      → ((g : String) → Memᴰ g ctx.groups → Memᴰ g (label ∷ labels) → ⊥)
      → reader_query docs kb
          (ingest docs kb json s (chunk_document docs make float json options doc_id c)).1
          ctx
          text
          limit
        ≡ ok out
      → All
          (λ r. r.document_id ≢ docs.id (chunk_document docs make float json options doc_id c))
          out
  chunk-confidential label labels kb s ctx text limit out e codec healthy outside h =
      let acl = for_groups (label ∷ labels) in
      ingest-confidential docs kb json s (chunk_document docs make float json options doc_id c) ctx
        acl text limit out healthy (chunk_document-acl label labels e codec)
        (for_groups-outside ctx (label ∷ labels) outside) h
