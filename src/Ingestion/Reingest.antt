-- ===== src/Ingestion/Reingest.antt =====
-- Ingesting again what a ledger already holds (rust/ingestion/src/pipeline.rs).
use smooth_agent.Base.{
  ℕ, ◌+◌, String, true, false, List, [], ◌∷◌, ◌≡◌, refl, ap, sym, ◌∙◌, arith, string_eq, ==_refl,
  not, map, length, any, null, contains, All, Bool-cases, inl, inr,
}
use mathlib.Core.Path.{subst}
use smooth_agent.Base.Sets.{contains-set_insert}
use smooth_agent.Base.Outcome.{Outcome, ok, err, Outcome-cases}
use smooth_agent.Engine.{Documents, KnowledgeBase}
use smooth_agent.Access.Acl.{AclJson}
use smooth_agent.Curation.Meta.{FloatOps}
use smooth_agent.Ingestion.Chunker.{RawDocument, Chunk, Chunker, chunk}
use smooth_agent.Ingestion.Ledger.{IngestLedger, record_key, ledger_contains, chunk_key}
use smooth_agent.Ingestion.Pipeline.{
  Embedder, NewDocument, IngestOptions, IngestReport, IngestState, store_chunk, store_new,
  store_chunks, embed_chunks, ingest_document, ingest_documents, skip,
}

-- A healthy ledger with at least the keys of another one.
abbrev pub Grown : IngestLedger → IngestLedger → Type 0
Grown l m =
    (m.poisoned ≡ false)
    × ((k : String) → contains l.content k ≡ true → contains m.content k ≡ true)

abbrev pub Covered : IngestLedger → List String → Type 0
Covered ledger keys = All (λ k. contains ledger.content k ≡ true) keys

Grown-trans : (l m n : IngestLedger) → Grown l m → Grown m n → Grown l n
Grown-trans l m n g h = (h.0, λ k e. h.1 k (g.1 k e))

Covered-Grown :
    (l m : IngestLedger) (keys : List String) → Grown l m → Covered l keys → Covered m keys
Covered-Grown l m [] g c = tt
Covered-Grown l m (k ∷ keys) g c = (g.1 k c.0, Covered-Grown l m keys g c.1)

record_key-Grown : (l : IngestLedger) (k : String) → l.poisoned ≡ false → Grown l (record_key l k).1
unfolding record_key
record_key-Grown l k h =
    rw h (refl, λ j e. rw (contains-set_insert l.content k j) (ground (arith, e)))

record_key-contains :
    (l : IngestLedger) (k : String)
    → l.poisoned ≡ false
    → contains (record_key l k).1.content k ≡ true
unfolding record_key
record_key-contains l k h = rw h (rw (contains-set_insert l.content k k, ==_refl k) refl)

-- No key is new to a ledger exactly if it covers them.
none_new :
    (l : IngestLedger) (keys : List String)
    → l.poisoned ≡ false
    → any (λ k. not (ledger_contains l k)) keys ≡ false
    → Covered l keys
none_new l [] h e = tt
none_new l (k ∷ keys) h e = ground (arith, none_new l keys h)

not_new :
    (l : IngestLedger) (keys : List String)
    → l.poisoned ≡ false
    → Covered l keys
    → any (λ k. not (ledger_contains l k)) keys ≡ false
not_new l [] h c = refl
not_new l (k ∷ keys) h c = ground (arith, not_new l keys h c.1)

module _ (docs : Documents) (make : NewDocument docs.Document) {Score : Type 0}
    (float : FloatOps Score) (json : AclJson) (kb : KnowledgeBase docs.Document Score)
    (options : IngestOptions make.DocumentType Score) where
  -- The keys of a document's chunks.
  abbrev pub keys_of : Chunker → RawDocument → List String
  keys_of chunker raw = map (chunk_key options.org_id raw.id) (chunk chunker raw)

  -- The loop over the chunks and its round, at the options.
  abbrev pub stored_chunks :
      String → IngestState kb.State → ℕ → List Chunk → Outcome ℕ × IngestState kb.State
  stored_chunks doc_id s n cs = store_chunks docs make float json kb options doc_id s n cs

  abbrev pub stored : String → IngestState kb.State → ℕ → Chunk → Outcome ℕ × IngestState kb.State
  stored doc_id s n c = store_new docs make float json kb options doc_id s n c

  store_new-ledger :
      (doc_id : String) (s : IngestState kb.State) (n : ℕ) (c : Chunk)
      → (stored doc_id s n c).1.ledger ≡ (record_key s.ledger (chunk_key options.org_id doc_id c)).1
  unfolding store_new
  store_new-ledger doc_id s n c =
      elim (Bool-cases (record_key s.ledger (chunk_key options.org_id doc_id c)).0) [
        | inl e ↦
            rw e
              (elim (Outcome-cases
                (store_chunk docs make float json kb options s.knowledge doc_id c).0) [
                  | inl (u, o) ↦ rw (o, store_chunk) refl
                  | inr (m, o) ↦ rw (o, store_chunk) refl
                ])
        | inr e ↦ rw e refl
      ]

  pub store_new-Grown :
      (doc_id : String) (s : IngestState kb.State) (n : ℕ) (c : Chunk)
      → s.ledger.poisoned ≡ false
      → Grown s.ledger (stored doc_id s n c).1.ledger
        × (contains (stored doc_id s n c).1.ledger.content (chunk_key options.org_id doc_id c)
            ≡ true)
  store_new-Grown doc_id s n c h =
      let key = chunk_key options.org_id doc_id c in
      rw (store_new-ledger doc_id s n c)
        (record_key-Grown s.ledger key h, record_key-contains s.ledger key h)

  -- What the loop does behind a round, and the loop as a round with that.
  abbrev pub bind_chunks :
      String → IngestState kb.State → List Chunk → Outcome ℕ → Outcome ℕ × IngestState kb.State
  bind_chunks doc_id after cs r = elim r [
    | err m ↦ (err m, after)
    | ok count ↦ stored_chunks doc_id after count cs
  ]

  stored_step :
      (doc_id : String) (s : IngestState kb.State) (n : ℕ) (c : Chunk) (cs : List Chunk)
      → stored_chunks doc_id s n (c ∷ cs)
        ≡ bind_chunks doc_id (stored doc_id s n c).1 cs (stored doc_id s n c).0
  unfolding store_chunks
  stored_step doc_id s n c cs = refl

  abbrev pub LeavesChunks :
      IngestLedger → String → List Chunk → Outcome ℕ × IngestState kb.State → Type 0
  LeavesChunks l doc_id cs r =
      Grown l r.1.ledger
      × ((count : ℕ)
          → r.0 ≡ ok count
          → Covered r.1.ledger (map (chunk_key options.org_id doc_id) cs))

  -- The loop leaves a healthy ledger with all that it held, and with the keys of all the chunks if no
  -- store failed.
  store_chunks-Grown :
      (doc_id : String) (s : IngestState kb.State) (n : ℕ) (cs : List Chunk)
      → s.ledger.poisoned ≡ false
      → LeavesChunks s.ledger doc_id cs (stored_chunks doc_id s n cs)
  store_chunks-Grown doc_id s n [] h = unfold store_chunks in ((h, λ k e. e), λ count e. tt)
  store_chunks-Grown doc_id s n (c ∷ cs) h =
      let after = (stored doc_id s n c).1 in
      let (g, here) = store_new-Grown doc_id s n c h in
      let Goal = LeavesChunks s.ledger doc_id (c ∷ cs) in
      subst Goal (sym (stored_step doc_id s n c cs)) (elim (Outcome-cases (stored doc_id s n c).0) [
        | inl (m, e) ↦
            let (grows, covers) = store_chunks-Grown doc_id after m cs g.0 in
            subst Goal (ap (bind_chunks doc_id after cs) (sym e)) (
              Grown-trans s.ledger after.ledger (stored_chunks doc_id after m cs).1.ledger g grows,
              λ count o. (grows.1 _ here, covers count o),
            )
        | inr (m, e) ↦ subst Goal (ap (bind_chunks doc_id after cs) (sym e)) (g, λ count o. cc)
      ])

  document-Covered :
      (chunker : Chunker) (embedder : Embedder) (s : IngestState kb.State) (report : IngestReport)
      (raw : RawDocument)
      → s.ledger.poisoned ≡ false
      → Covered s.ledger (keys_of chunker raw)
      → ingest_document docs make float json kb chunker embedder options s report raw
        ≡ (ok (skip docs make float json kb report), s)
  unfolding ingest_document
  document-Covered chunker embedder s report raw h c =
      rw (not_new s.ledger (keys_of chunker raw) h c) (ground arith)

  no_keys :
      (doc_id : String) (l : IngestLedger) (cs : List Chunk)
      → null cs ≡ true
      → Covered l (map (chunk_key options.org_id doc_id) cs)
  no_keys doc_id l [] e = tt
  no_keys doc_id l (c ∷ cs) e = cc

  document-Grown :
      (chunker : Chunker) (embedder : Embedder) (s : IngestState kb.State) (report : IngestReport)
      (raw : RawDocument)
      → s.ledger.poisoned ≡ false
      → let result =
          ingest_document docs make float json kb chunker embedder options s report raw in
        Grown s.ledger result.1.ledger
        × ((next : IngestReport)
            → result.0 ≡ ok next
            → Covered result.1.ledger (keys_of chunker raw))
  unfolding ingest_document
  document-Grown chunker embedder s report raw h =
      let cs = chunk chunker raw in
      let n = report.chunks_stored in
      elim (Bool-cases (null cs)) [
        | inl e ↦ rw e ((h, λ k x. x), λ next o. no_keys raw.id s.ledger cs e)
        | inr e ↦
            elim (Bool-cases (any (λ k. not (ledger_contains s.ledger k)) (keys_of chunker raw))) [
              | inr old ↦
                  rw (e, old)
                    ((h, λ k x. x), λ next o. none_new s.ledger (keys_of chunker raw) h old)
              | inl new ↦
                  elim (Outcome-cases (embed_chunks docs make float json kb embedder raw.id cs)) [
                    | inr (m, failed) ↦ rw (e, new, failed) ((h, λ k x. x), λ next o. cc)
                    | inl (u, embedded) ↦
                        let (grows, covers) = store_chunks-Grown raw.id s n cs h in
                        elim (Outcome-cases (stored_chunks raw.id s n cs).0) [
                          | inl (count, o) ↦
                              rw (e, new, embedded, o) (grows, λ next x. covers count o)
                          | inr (m, o) ↦ rw (e, new, embedded, o) (grows, λ next x. cc)
                        ]
                  ]
            ]
      ]

  -- The loop over the documents, at its options, and its first round.
  abbrev pub ingested :
      Chunker
      → Embedder
      → IngestState kb.State
      → IngestReport
      → List RawDocument
      → Outcome IngestReport × IngestState kb.State
  ingested chunker embedder s report raws =
      ingest_documents docs make float json kb chunker embedder options s report raws

  abbrev pub bind_documents :
      Chunker
      → Embedder
      → List RawDocument
      → Outcome IngestReport × IngestState kb.State
      → Outcome IngestReport × IngestState kb.State
  bind_documents chunker embedder raws r = elim r.0 [
    | err m ↦ (err m, r.1)
    | ok next ↦ ingested chunker embedder r.1 next raws
  ]

  ingested_step :
      (chunker : Chunker) (embedder : Embedder) (s : IngestState kb.State) (report : IngestReport)
      (raw : RawDocument) (raws : List RawDocument)
      → ingested chunker embedder s report (raw ∷ raws)
        ≡ bind_documents chunker embedder raws
            (ingest_document docs make float json kb chunker embedder options s report raw)
  unfolding ingest_documents
  ingested_step chunker embedder s report raw raws = refl

  abbrev pub skip_all : IngestReport → List RawDocument → IngestReport
  skip_all report [] = report
  skip_all report (raw ∷ raws) = skip_all (skip docs make float json kb report) raws

  pub documents-Covered :
      (chunker : Chunker) (embedder : Embedder) (s : IngestState kb.State) (report : IngestReport)
      (raws : List RawDocument)
      → s.ledger.poisoned ≡ false
      → All (λ raw. Covered s.ledger (keys_of chunker raw)) raws
      → ingested chunker embedder s report raws ≡ (ok (skip_all report raws), s)
  documents-Covered chunker embedder s report [] h c = unfold ingest_documents in refl
  documents-Covered chunker embedder s report (raw ∷ raws) h c =
      ingested_step chunker embedder s report raw raws
      ∙ ap (bind_documents chunker embedder raws)
          (document-Covered chunker embedder s report raw h c.0)
      ∙ documents-Covered chunker embedder s (skip docs make float json kb report) raws h c.1

  pub skip_all_lem :
      (report : IngestReport) (raws : List RawDocument)
      → skip_all report raws
        ≡ record report { documents_skipped = report.documents_skipped + length raws }
  skip_all_lem report [] = ground arith
  skip_all_lem report (raw ∷ raws) =
      skip_all_lem (skip docs make float json kb report) raws ∙ ground arith

  abbrev pub LeavesDocuments :
      IngestLedger
      → Chunker
      → List RawDocument
      → Outcome IngestReport × IngestState kb.State
      → Type 0
  LeavesDocuments l chunker raws r =
      Grown l r.1.ledger
      × ((next : IngestReport)
          → r.0 ≡ ok next
          → All (λ raw. Covered r.1.ledger (keys_of chunker raw)) raws)

  pub documents-Grown :
      (chunker : Chunker) (embedder : Embedder) (s : IngestState kb.State) (report : IngestReport)
      (raws : List RawDocument)
      → s.ledger.poisoned ≡ false
      → LeavesDocuments s.ledger chunker raws (ingested chunker embedder s report raws)
  documents-Grown chunker embedder s report [] h =
      unfold ingest_documents in ((h, λ k e. e), λ next e. tt)
  documents-Grown chunker embedder s report (raw ∷ raws) h =
      let r = ingest_document docs make float json kb chunker embedder options s report raw in
      let (g, here) = document-Grown chunker embedder s report raw h in
      let Goal = LeavesDocuments s.ledger chunker (raw ∷ raws) in
      let behind = λ (o : Outcome IngestReport). bind_documents chunker embedder raws (o, r.1) in
      subst Goal (sym (ingested_step chunker embedder s report raw raws))
        (elim (Outcome-cases r.0) [
          | inl (m, e) ↦
              let (grows, covers) = documents-Grown chunker embedder r.1 m raws g.0 in
              let l = (ingested chunker embedder r.1 m raws).1.ledger in
              subst Goal (ap behind (sym e)) (
                Grown-trans s.ledger r.1.ledger l g grows,
                λ next o. (
                  Covered-Grown r.1.ledger l (keys_of chunker raw) grows (here m e),
                  covers next o,
                ),
              )
          | inr (m, e) ↦ subst Goal (ap behind (sym e)) (g, λ next o. cc)
        ])
