-- ===== src/Contracts.antt =====
-- The data model of voclyp/contracts.py that the scorer reads: the extracted signals.
pub mod Context
pub mod Insight
use voclyp_dev.Prelude.{ℕ, String}

-- `Signal.type`: the six universal types of the taxonomy, or any other text.
pub data SignalType : Type 0 where
  intent demand promise objection price_reaction competitor_mention : SignalType
  other : String → SignalType

-- `confidence` is counted in hundredths.
pub record Signal : Type 0 where
  pub type : SignalType
  pub subtype : String
  pub speaker : String
  pub quote : String
  pub turn : ℕ
  pub confidence : ℕ
