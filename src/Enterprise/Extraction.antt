-- ===== src/Enterprise/Extraction.antt =====
-- The extraction worker (voclyp/enterprise/extraction/bedrock_worker.py). What Claude or the offline
-- heuristic makes of a transcript is an argument, and so is whether the bus raises.
pub mod Worker
pub mod Flow
mod Tests
use voclyp_dev.Prelude.{ℕ, List, Text}

-- the fields of `extraction` that the workers read; the confidence is counted in hundredths
pub record Extraction : Type 0 where
  pub posture_issues : List Text
  pub pricing_objections : List Text
  pub competitor_mentions : List Text
  pub emi_commitments : ℕ
  pub action : Text
  pub talking_point : Text
  pub overall_confidence : ℕ
