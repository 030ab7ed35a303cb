-- ===== src/Access/Recording.antt =====
-- What ingestion records, and what that means for later readers.
use smooth_agent.Base.{
  String, false, Option, none, some, List, ◌≡◌, ◌≢◌, refl, ◌∙◌, ap, arith, ℕ, All, All-imp,
  string_eq, if◌then◌else◌, ◌==◌,
}
use text.Mathlib.TextEquality.{eq_iff}
use smooth_agent.Base.Dict.{get, get-insert, get-insert_self}
use smooth_agent.Base.Outcome.{ok}
use smooth_agent.Engine.{KnowledgeResult, Documents, KnowledgeBase}
use smooth_agent.Access.Acl.{
  DocAcl, AccessContext, AclJson, from_metadata, attach_to, acl_metadata_key,
}
use smooth_agent.Access.Entitlement.{Entitled}
use smooth_agent.Access.Reader.{Readable, unrestricted, entitled, reader_query-Readable}
use smooth_agent.Access.Store.{AclTable, AclKnowledgeStore, ingest, reader_query}

module _ (json : AclJson) (docs : Documents) where
  -- A list that is stamped onto a document is read back from its metadata, provided that the JSON
  -- codec reads back what it wrote for that list.
  pub from_metadata-attach_to :
      (acl : DocAcl) (doc : docs.Document)
      → json.from_str (json.to_string acl) ≡ some acl
      → from_metadata json (docs.metadata (attach_to json docs acl doc)) ≡ some acl
  unfolding from_metadata attach_to
  from_metadata-attach_to acl doc codec =
      rw
        (
          docs.metadata-with_metadata doc acl_metadata_key (json.to_string acl),
          get-insert_self (docs.metadata doc) acl_metadata_key (json.to_string acl),
          from_metadata,
        )
        codec

-- The list that a document recorded under `id` has after one more document was ingested.
abbrev pub recorded : Option DocAcl → String → String → Option DocAcl → Option DocAcl
recorded none doc_id id old = old
recorded (some acl) doc_id id old = if doc_id == id then some acl else old

module _ (docs : Documents) {Score : Type 0} (kb : KnowledgeBase docs.Document Score)
    (json : AclJson) (s : AclKnowledgeStore kb.State) (doc : docs.Document) where
  -- Ingestion with a healthy lock sets the entry of the document's own id to its stamped list,
  -- and changes no other entry; a document with no stamp changes no entry at all, so it keeps the
  -- restriction that an earlier version of it recorded. So it is whether or not the backend fails.
  pub get-ingest :
      s.acls.poisoned ≡ false
      → (id : String)
      → get (ingest docs kb json s doc).1.acls.content id
        ≡ recorded (from_metadata json (docs.metadata doc)) (docs.id doc) id (get s.acls.content id)
  unfolding ingest
  get-ingest healthy id = go (from_metadata json (docs.metadata doc)) refl
    where
      go :
          (o : Option DocAcl)
          → from_metadata json (docs.metadata doc) ≡ o
          → get (ingest docs kb json s doc).1.acls.content id
            ≡ recorded o (docs.id doc) id (get s.acls.content id)
      go none e = rw (e, ingest)
      go (some acl) e = rw (e, healthy, ingest) (get-insert s.acls.content (docs.id doc) id acl)

  Readable-recorded :
      (ctx : AccessContext) (acl : DocAcl) (table : AclTable)
      → get table (docs.id doc) ≡ some acl
      → ¬ (Entitled ctx acl)
      → (id : String) → Readable table ctx id
      → id ≢ docs.id doc
  Readable-recorded ctx acl table g refused id (unrestricted e) same = cc (ap (get table) same)
  Readable-recorded ctx acl table g refused id (entitled acl' e ent) same =
      let a : acl' ≡ acl = cc (ap (get table) same) in refused (rw a at ent)

  -- A restricted document is never disclosed: once a document with a stamped list was ingested, no
  -- query of a requester whom the list does not entitle returns a result with that document's id,
  -- whatever the query, the limit and the backend's answer.
  pub ingest-confidential :
      (ctx : AccessContext) (acl : DocAcl) (text : String) (limit : ℕ)
      (out : List (KnowledgeResult Score))
      → s.acls.poisoned ≡ false
      → from_metadata json (docs.metadata doc) ≡ some acl
      → ¬ (Entitled ctx acl)
      → reader_query docs kb (ingest docs kb json s doc).1 ctx text limit ≡ ok out
      → All (λ r. r.document_id ≢ docs.id doc) out
  ingest-confidential ctx acl text limit out healthy stamped refused h =
      let s' = (ingest docs kb json s doc).1 in
      let g : get s'.acls.content (docs.id doc) ≡ some acl =
        get-ingest healthy (docs.id doc) ∙ ground (arith, eq_iff (docs.id doc) (docs.id doc)) in
      All-imp (λ r. Readable s'.acls.content ctx r.document_id) _
        (λ r. Readable-recorded ctx acl s'.acls.content g refused r.document_id) out
        (reader_query-Readable docs kb s' ctx text limit out h)
