-- ===== src/Stages.antt =====
-- The repository's own pipeline stages (voclyp/pipeline/stages) and the taxonomy that they read.
pub mod Words
pub mod Taxonomy
pub mod Signals
