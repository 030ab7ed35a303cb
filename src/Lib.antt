-- ===== src/Lib.antt =====
-- The document, conversation and delivery core of smooth-operator (the Rust workspace under rust/).
--
-- The engine crate supplies knowledge bases; this library takes one as a parameter (Engine). Above it
-- stand two layers of retrieval: access control (Access) records an allow-list per document and
-- filters every query by the requester's entitlements; curation (Curation) adds document sets, metadata
-- filters and boosts and consults the same allow-lists. The storage seam (Domain, Storage)
-- keeps conversations, participants, messages and sessions; the backplane (Backplane) delivers events to
-- the connections of a session or conversation. Authentication and widget policies (Auth, Widget) say
-- who a request comes from and which pages may embed an agent. The server (Server) parses a connection's
-- frames, creates sessions and runs turns: a turn reads the knowledge as its requester, both for the
-- automatic context and in the search tool (Search), and cites what it found (Turn).
--
-- Base: shared notation, lists, association lists, sets of keys, stable sorting, text, and Outcome,
--   the result of an operation that may report an error, with locks that may be poisoned.
-- Engine: the interface of the engine's knowledge base and documents.
-- Access: rust/smooth-operator/src/access_control.rs. Acl has `DocAcl`, `AccessContext` and
--   `can_access`; Store has `AclKnowledgeStore`, `AclIngestHandle` and `AclReader`; the side table
--   behind its `Arc<RwLock<...>>` is the Lock in the state that every handle shares.
-- Curation: rust/smooth-operator/src/curation.rs. Meta has `DocMeta`, Filter has
--   `RetrievalFilter`, Store has `CuratedKnowledgeStore`. Metadata is an association list of text.
-- Backplane: rust/smooth-operator/src/backplane.rs. Registry has `InMemoryBackplane`;
--   publishing yields the calls of the connections' sinks.
-- Domain: rust/smooth-operator/src/domain.rs and the value types of rust/smooth-operator/src/adapter.rs.
-- Storage: rust/adapters/in-memory/src/lib.rs. Tables has the tables and all operations;
--   the clock is an argument of the operations that stamp a time.
-- Ingestion: rust/ingestion/src. Chunker has chunker.rs and `RawDocument`, Ledger and Pipeline have
--   pipeline.rs, Indexing has indexing.rs; the state of a run is what it leaves in the knowledge base and
--   in the shared ledger, and an indexing pass also threads the recorded runs and its events. A number is
--   written with at most 20 digits, which are enough below 2 ^ 64.
-- Turn: Citations and History have the citations of a turn, the replayed history and the history tool
--   (rust/smooth-operator/src/runtime.rs, rust/smooth-operator-server/src/runner.rs,
--   rust/smooth-operator/src/tools/conversation_history.rs), the latter on the in-memory adapter.
--
-- Auth: rust/smooth-operator/src/auth.rs. Principal has roles, principals and claims, Verifier the
--   verifiers, Config their choice from the environment; Secure has what they guarantee.
-- Widget: rust/smooth-operator/src/widget_auth.rs. Origin has the allow-list, Context the signed
--   context with the arithmetic of i64, whose overflow is a panic or a wrap as the build says.
-- Json: the interface of serde_json; Toy is an implementation for concrete runs.
-- Search: Rerank has rust/smooth-operator/src/rerank.rs, Tool has
--   rust/smooth-operator/src/tools/knowledge_search.rs with its result sink.
-- Fetch: rust/smooth-operator/src/tools/fetch_url.rs. Guard has the checks of addresses and URLs, Redirects the
--   redirect policy and a fetch, on fuel of ten requests, which is enough; Html has `html_to_text`, on
--   fuel of one more than the page has characters, which is enough.
-- Server: rust/smooth-operator-server/src. Protocol has protocol.rs; Agent is the engine's agent, a
--   finite tree of events and searches; Streaming and Turn have `run_streaming_turn` of runner.rs; Config
--   has config.rs, State has state.rs; Policy, Sessions and Dispatch have handler.rs. The task that the
--   creation of a session spawns is a value that runs later in any state.
-- Configs: rust/smooth-operator/src/settings.rs and connector_config.rs. Settings and Connectors have the
--   two stores, Isolation what a read gives after any changes.
-- Admin: rust/smooth-operator-server/src/admin.rs. Gate has the role gate of the routes, History the
--   routes of the chat history, Visibility what the two let through.
--
-- A frame is handled at one instant, which is an argument, and new ids are arguments too. During a turn
-- nothing else changes the storage, and the engine's run of the agent ends. The events of a turn are
-- listed in the order in which they are sent; if the agent fails, the code does not wait for the
-- translator before it sends the error, and how many events are sent before that is an argument. The
-- embedder returns a vector for each text, as its trait demands, so that the debug assertion of the
-- pipeline never fails.
--
-- Hash maps and hash sets are association lists and lists without an order that the theorems
-- rely on. A native string is a sequence of characters. But for the digits of a number, no operation
-- needs fuel: each loop is recursion on the list it consumes, and the only loop over pages has its
-- bound in its theorem. Events of an indexing pass are kept with the newest first.
-- Times are numbers. Floats are a type with the operations and laws that the code uses.
--
-- Not modelled: serialisation derives, logging, the async runtime (each operation holds its lock
-- from start to end, so it is one step), the engine crate, and the transports and services behind
-- the other adapters.
pub mod Base
pub mod Engine
pub mod Access
pub mod Configs
pub mod Curation
pub mod Backplane
pub mod Domain
pub mod Storage
pub mod Ingestion
pub mod Turn
pub mod Auth
pub mod Widget
pub mod Json
pub mod Search
pub mod Server
pub mod Fetch
pub mod Admin
