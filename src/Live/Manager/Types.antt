-- ===== src/Live/Manager/Types.antt =====
-- The state of `LiveSessionManager` (voclyp/live/session.py), the recognizer that it calls, and what
-- it answers.
use voclyp_dev.Prelude.{ℕ, String, Option, List, Text}
use voclyp_dev.Ingestion.Tables.{Intake}
use voclyp_dev.Ingestion.{Error}
use voclyp_dev.Meters.{Meters}
use voclyp_dev.Live.{Status, Visits}

-- what `add_chunk` returns: the text, with the name and the phone number that were heard
pub record Partial : Type 0 where
  pub text : String
  pub name : String
  pub phone : String

-- the recognizer
pub record Recognizer (Asr : Type 0) : Type 0 where
  pub fresh : Asr
  pub add_chunk : Asr → Text → Asr × Option Partial
  pub sarvam_calls : Asr → ℕ

pub record Paths : Type 0 where
  pub chunk_path : String → ℕ → String
  pub merge_files_to_bytes : List Text → Text
  pub client_ref : String → String

-- the events that are sent to the client
pub data Event : Type 0 where
  partial_transcript : String → Event
  entity_name : String → Event
  entity_phone : String → Event

pub data Ending : Type 0 where
  queued : String → Ending
  not_found : Ending
  not_completable : Status → Ending
  too_short : Ending
  rejected : Error → Ending

pub record State (Asr : Type 0) : Type 0 where
  pub visits : Visits
  pub intake : Intake
  pub meters : Meters
  pub recognizers : List (String × Asr)
