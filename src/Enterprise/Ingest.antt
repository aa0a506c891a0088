-- ===== src/Enterprise/Ingest.antt =====
-- `EnterpriseIngestion.ingest` (voclyp/enterprise/ingestion.py) with the audio store of
-- voclyp/enterprise/storage/s3.py: consent, then the conversation's row, then the audio, then the
-- event. Fresh ids, the clock, the place of the tenant's schema among the open files and whether and
-- where the audio store raises are arguments; one reading of the clock stands for
-- those of a call. What the event's subscribers do are steps of their own.
mod Tests
pub mod Covered
pub mod Failed
use Prim.Native.String.{◌++◌ as str_append}
use voclyp_dev.Prelude.{
  ℕ, ◌+◌, String, Bool, false, Option, none, some, List, [], ◌∷◌, ◌++◌, if◌then◌else◌, Text, codes,
}
use voclyp_dev.Enterprise.States.{State, consent_logged, audio_uploaded}
use voclyp_dev.Enterprise.Conversations.{
  Conversation, no_detail, Schemas, Outcome, updated, illegal_transition, set_state,
  insert_conversation,
}
use voclyp_dev.Enterprise.Consent.{
  Artifact, ConsentLog, Ledger, Notice, Purposes, ConsentError, Recorded, consented, consent_error,
  record_consent,
}
use voclyp_dev.Enterprise.Erasure.{Depot, remove}

-- `audio_key(tenant_id, conversation_id)`
pub audio_key : String → String → String
audio_key tenant_id conversation_id =
    str_append tenant_id (str_append "/" (str_append conversation_id ".wav"))

-- the arguments of `ingest`
pub record Capture : Type 0 where
  pub tenant_id : String
  pub agent_id : String
  pub store_id : String
  pub session_id : Text
  pub language : Text
  pub purposes : Purposes
  pub device_fingerprint : Text
  pub notice_text : Text
  pub audio : Text
  pub customer_phone : Text
  pub mock_transcript : Option Text
  pub extra_artifact : Option Text

-- the event `audio.raw.uploaded`
pub record AudioUploaded : Type 0 where
  pub conversation_id : String
  pub tenant_id : String
  pub mock_transcript : Option Text

-- the store's two tables, the audio store and the topic
pub record Site : Type 0 where
  pub ledger : Ledger
  pub depot : Depot
  pub produced : List AudioUploaded

-- what `ingest` returns
pub record Receipt : Type 0 where
  pub conversation_id : String
  pub consent_id : String
  pub consent_entry_hash : Text
  pub state : State
  pub erase_after : ℕ

-- a return, or the exception of the consent service, of the audio store or of the state machine
pub data Reply : Type 0 where
  accepted : Receipt → Reply
  refused : ConsentError → Reply
  upload_failed : Reply
  bad_transition : Reply

abbrev pub notice_of : Capture → Notice
notice_of a = record {
  tenant_id = codes a.tenant_id;
  agent_id = codes a.agent_id;
  session_id = a.session_id;
  language = a.language;
  purposes = a.purposes;
  device_fingerprint = a.device_fingerprint;
  notice_text = a.notice_text;
  customer_phone = a.customer_phone;
  extra_artifact = a.extra_artifact;
}

-- a call of `LocalAudioStore.put`: it raises with no blob there, or raises behind the blob, such as
-- at its tag, or does not raise
pub data PutCall : Type 0 where
  raises_before raises_behind put_done : PutCall

-- `audio_store.put(key, …)`: an object of that key is replaced
abbrev pub put : String → List String → List String
put key objects = key ∷ remove key objects

-- the blob is there
abbrev pub with_blob : Conversation → Site → Site
with_blob row s = record s {
  depot = record { schemas = s.depot.schemas; objects = put row.s3_key s.depot.objects };
}

-- `erase_after_seconds`
module _ (sha256 : Text → Text) (dumps : Artifact → Text) (iso : ℕ → Text) (isdigit : ℕ → Bool)
    (erase_after_seconds : ℕ) where
  -- the row of step 2
  pub conversation_row : String → ℕ → Capture → ConsentLog → Conversation
  unfolding audio_key
  conversation_row id now a consent = record {
    id = id;
    tenant_id = a.tenant_id;
    store_id = a.store_id;
    consent_log_id = consent.id;
    audio_sha256 = sha256 a.audio;
    s3_key = audio_key a.tenant_id id;
    state = consent_logged;
    error_detail = no_detail;
    agent_id = a.agent_id;
    transcript_codemix = none;
    transcript_english = none;
    detected_languages = [];
    duration_ms = none;
    asr_path = none;
    extraction = none;
    extraction_confidence = none;
    requires_human_verification = false;
    verified_by = none;
    verified_at = none;
    erase_after = now + erase_after_seconds;
    erased_at = none;
    created_at = now;
    updated_at = now;
  }

  -- what follows the `put` of an upload
  pub uploaded : ℕ → Capture → ConsentLog → Conversation → Site → Reply × Site
  uploaded now a consent row s =
      let event : AudioUploaded = record {
        conversation_id = row.id;
        tenant_id = a.tenant_id;
        mock_transcript = a.mock_transcript;
      } in
      let receipt : Receipt = record {
        conversation_id = row.id;
        consent_id = consent.id;
        consent_entry_hash = consent.entry_hash;
        state = audio_uploaded;
        erase_after = row.erase_after;
      } in
      elim (set_state now row.id audio_uploaded (λ c. c) s.depot.schemas) [
        | illegal_transition ↦ (bad_transition, s)
        | updated schemas ↦ (
          accepted receipt,
          record s {
            depot = record { schemas = schemas; objects = s.depot.objects };
            produced = s.produced ++ event ∷ [];
          },
        )
      ]

  -- steps 3 and 4 of an upload whose row is inserted
  pub upload : PutCall → ℕ → Capture → ConsentLog → Conversation → Site → Reply × Site
  unfolding uploaded
  upload raises_before now a consent row s = (upload_failed, s)
  upload raises_behind now a consent row s = (upload_failed, with_blob row s)
  upload put_done now a consent row s = uploaded now a consent row (with_blob row s)

  -- steps 2 to 4, once `record` returned or raised
  after_consent : PutCall → ℕ → String → ℕ → Capture → Site → Recorded × Ledger → Reply × Site
  unfolding conversation_row
  after_consent call place id now a s (consent_error e, ledger) =
      (refused e, record s { ledger = ledger })
  after_consent call place id now a s (consented consent, ledger) =
      let row = conversation_row id now a consent in
      let depot : Depot = record {
        schemas = insert_conversation place row s.depot.schemas;
        objects = s.depot.objects;
      } in
      upload call now a consent row (record s { ledger = ledger; depot = depot })

  -- `EnterpriseIngestion.ingest`
  pub ingest : PutCall → ℕ → String → String → ℕ → Capture → Site → Reply × Site
  unfolding after_consent
  ingest call place consent_id conversation_id now a s =
      after_consent call place conversation_id now a s
        (record_consent sha256 dumps iso isdigit consent_id now (notice_of a) s.ledger)
