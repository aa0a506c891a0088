-- ===== src/Contracts/Context.antt =====
-- `Utterance` and `ConversationContext` of voclyp/contracts.py. Times of speech count milliseconds,
-- similarities thousandths.
use voclyp_dev.Prelude.{ℕ, String, Bool, Option, List, Text}
use voclyp_dev.Contracts.{Signal}

pub record Utterance : Type 0 where
  pub text : String
  pub speaker : String
  pub normalized_text : String
  pub languages : List String
  pub speaker_id : String
  pub start_time : ℕ
  pub end_time : ℕ

pub record Context : Type 0 where
  pub tenant_id : String
  pub conversation_id : String
  pub industry : String
  pub audio_paths : List String
  pub agent_id : String
  pub store_id : String
  pub consent_captured : Bool
  pub customer_name : String
  pub rep_name : Text
  pub agent_voiceprint : List ℕ
  pub agent_voice_similarity : Option ℕ
  pub agent_voice_verified : Bool
  pub utterances : List Utterance
  pub detected_languages : List String
  pub code_switching : Bool
  pub normalized_to : String
  pub pii_redactions : List (String × ℕ)
  pub signals : List Signal
  pub summary_text : String
  pub summary_fields : List (String × String)
  pub audio_deleted_at : Option ℕ
  pub stage_versions : List (String × String)
  pub stage_timings_ms : List (String × ℕ)
  pub provider_usage : List (String × ℕ)
  pub taxonomy_version : String
