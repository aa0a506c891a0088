-- ===== src/Lib.antt =====
-- Voclyp turns recorded sales conversations into insights. A recording is queued as a job
-- (voclyp/queueing.py); a worker leases the job and runs the conversation through the stages of a
-- configured pipeline (voclyp/pipeline), which must redact the transcript and destroy the audio
-- before it analyses anything; the signals found are scored (voclyp/scoring.py). Each step is
-- written to a hash-chained audit log (voclyp/store.py, voclyp/security.py), and each finished
-- insight is an event of the outbox, which the dispatcher delivers to the tenants' webhooks
-- (voclyp/delivery.py). The enterprise edition (voclyp/enterprise) has a state machine for each
-- conversation and two workers that destroy audio when its time is over, and routes what was found
-- to the CRM, to WhatsApp and to the agent's phone, with retries, dead letters and a hold for
-- human verification.
--
-- Files:
--   Prelude      shared: tests into Bool, lists, SQL tables, dicts, texts, integers, row ids
--   Contracts    voclyp/contracts.py: `Signal`, the context and `build_insight`
--   Scoring      voclyp/scoring.py: `score_conversation`; Scoring/Bounds, Scoring/Order
--   Queue        voclyp/queueing.py: `JobQueue`; Queue/Budget (step relation), Queue/Cost,
--                Queue/Laws
--   Security     voclyp/security.py: HashChain (`chain_hash`), Ssrf (`check_webhook_url`), Tokens
--                (session tokens), Signatures (`sign_webhook`, `verify_webhook_signature`)
--   Accounts     voclyp/store.py: API keys and invites; Accounts/Keys, Accounts/Invites
--   Audit        voclyp/store.py: `audit`, `verify_audit_chain`; Audit/Chain, Audit/Exports
--   Pipeline     voclyp/pipeline: `validate_pipeline_config`, `build_pipeline`, `PipelineRunner`;
--                Pipeline/Order, Pipeline/Lineage
--   Webhooks     voclyp/store.py: endpoints, deliveries and outbox, with their rows in
--                Webhooks/Tables; Webhooks/Dispatch is voclyp/delivery.py, with Ledger, Marks,
--                Budget, Outcome, Settled and Fanout; Webhooks/Reports has the listings
--   Enterprise   voclyp/enterprise: States and Conversations (store.py; Conversations/Due),
--                Erasure (erasure/worker.py, erasure/orphan_sweep.py; Erasure/Run,
--                Erasure/Accounts), Routing (routing/dispatcher.py with the routing tables of
--                store.py); Routing/Payloads, Routing/Dispatch with Rows, Retry and Hold; Consent
--                (consent/service.py; Consent/Chain, Consent/Granted, Consent/Race), Ingest
--                (ingestion.py; Ingest/Covered, Ingest/Failed), Recognition
--                (asr/sarvam_worker.py), Extraction (extraction/bedrock_worker.py;
--                Extraction/Flow); the modules Columns say what updates keep
--   Ingestion    voclyp/ingestion.py: `submit`; Ingestion/Tables (store.py), Ingestion/Chunks,
--                Ingestion/Stored, Ingestion/Again
--   Users        voclyp/store.py: users and voiceprints; Users/Login, Users/Epochs
--   Meters       voclyp/store.py: metrics, usage and feedback
--   Live         voclyp/store.py: live sessions; Live/Manager is voclyp/live/session.py, with its
--                state in Types, Ended and Entities
--   Worker       voclyp/worker.py: `process_one`; Worker/Start, Worker/Stored, Worker/Originals,
--                Worker/Lost (calls that raise after the audio is gone);
--                Worker/Loops (`drain`, `run_forever`) with Drain and Serving; Worker/Spares has
--                the stage of pipeline/stages/audio_delete.py
--   Gateway      voclyp/gateway/app.py: Rate (`_rate_limit`, `_login_throttle`; Rate/Window) and Auth
--                (sessions, scopes, login, logout; Auth/Sessions, Auth/Signup, Auth/Signup/Burns)
--   Stages       voclyp/taxonomy.py and voclyp/pipeline/stages: Taxonomy (`load_taxonomy`;
--                Taxonomy/Merging), Words, Signals (`TaxonomySignalExtraction`; Signals/Gates,
--                Signals/Speakers, Signals/Once)
--   Stores       voclyp/store.py: stores, areas and role scopes; Stores/Scopes
--   Whatsapp     voclyp/whatsapp.py: `WhatsAppQueue`; Whatsapp/Routes (gateway/app.py),
--                Whatsapp/Isolation
--   Catalog      voclyp/catalog.py: scores and reasons; Catalog/Needs, Catalog/Ranking
--                (`rank_products`), Catalog/Ranking/Bounds
--   Insights     voclyp/store.py: the insights with their events; Insights/Numbering (step
--                relation), Insights/View (the table as a map)
--
-- A table is a list of rows in order of their row ids; a method that holds the store's lock is one
-- step, and the callers' interleavings are the sequences of such steps. The clock, fresh ids, the
-- network, the name service, the jitter and the hash are arguments. Names are strings; texts that
-- are taken apart or hashed are lists of character codes. Every number is a natural number, but
-- the score before it is clamped and the timestamp of a signature are integers. The loops of
-- `_chunk` run on fuel, as much as the upload has bytes, of which each round takes at least one.
-- `drain` runs on fuel too: more than the attempts that the pending jobs have left is enough.
-- Every other recursion is on a list or a number. The routing store is modelled with the schema of
-- one tenant open, and audio at rest without its encryption. In the worker, each call behind the
-- pipeline may raise, the deletion of an original before or behind the overwriting of its bytes;
-- the calls of the except clause do not. The audio store of the enterprise edition raises before
-- or behind the writing of the blob. The tests and the concrete instances of the theorems are in
-- the modules Tests.
--
-- Not modelled: HTTP and the gateway's routes but those named above, the recognition, translation
-- and language model services and the stages that call them, the analytics queries, the Postgres
-- stores, Kafka, object storage, and the web and mobile apps.
pub mod Prelude
pub mod Contracts
pub mod Scoring
pub mod Queue
pub mod Security
pub mod Audit
pub mod Pipeline
pub mod Webhooks
pub mod Enterprise
pub mod Accounts
pub mod Ingestion
pub mod Stages
pub mod Users
pub mod Meters
pub mod Catalog
pub mod Stores
pub mod Whatsapp
pub mod Live
pub mod Worker
pub mod Gateway
pub mod Insights
