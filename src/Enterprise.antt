-- ===== src/Enterprise.antt =====
-- The enterprise layer (voclyp/enterprise): the conversation state machine and the SQLite mirror of
-- store.py, and the two workers that destroy audio (erasure/worker.py, erasure/orphan_sweep.py).
mod Tests
pub mod States
pub mod Extraction
pub mod Recognition
pub mod Conversations
pub mod Erasure
pub mod Consent
pub mod Ingest
pub mod Routing
