-- ===== src/Ingestion.antt =====
-- `IngestionService.submit` of voclyp/ingestion.py. The id of the conversation, the clock and the
-- path of a part are arguments; the service fails by an error, before anything is stored.
mod Tests
pub mod Chunks
pub mod Tables
pub mod Stored
pub mod Again
use voclyp_dev.Prelude.{
  ℕ, ◌+◌, String, Bool, true, false, not, Option, none, some, List, [], ◌∷◌, ◌++◌, if◌then◌else◌,
  ltb, length, str_eq, Text, codes, ◌==◌,
}
use voclyp_dev.Queue.{JobQueue, Payload, enqueue}
use voclyp_dev.Ingestion.Chunks.{chunk}
use voclyp_dev.Ingestion.Tables.{
  Intake, duplicate_upload_ignored, ingested, tenant_industry, log_consent, idempotency_get,
  idempotency_set, write_file, log,
}

pub record Settings : Type 0 where
  pub chunk_bytes : ℕ
  pub max_upload_bytes : ℕ
  pub max_metadata_field_len : ℕ

-- the fields of `metadata` that are read, with "" for one that is missing
pub record Metadata : Type 0 where
  pub captured : Bool
  pub agent_id : String
  pub store_id : String
  pub customer_name : String
  pub client_ref : String

-- ConsentRequired, and the ValidationErrors
pub data Error : Type 0 where
  consent_required empty_upload upload_too_large unknown_tenant field_too_long : Error

pub data Result : Type 0 where
  ok : Intake → String → Result
  err : Error → Result

-- what a call takes from the system
pub record Call : Type 0 where
  pub now : ℕ
  pub conversation_id : String
  pub part_path : ℕ → String
  pub is_letterless : Text → Option Bool

-- `_field`
abbrev too_long : Settings → String → Bool
too_long settings value = ltb settings.max_metadata_field_len (length (codes value))

abbrev pub falsy : String → Bool
falsy s = str_eq s ""

-- the loop over the chunks, with the paths written
pub write_parts : (ℕ → String) → ℕ → List Text → Intake → Intake × List String
write_parts part_path i [] s = (s, [])
write_parts part_path i (c ∷ chunks) s =
    let (s', paths) = write_parts part_path (i + 1) chunks (write_file (part_path i) c s) in
    (s', part_path i ∷ paths)

module _ (settings : Settings) (call : Call) (tenant_id : String) (audio : Text)
    (m : Metadata) where
  payload_of : String → List String → Payload
  payload_of industry paths = record {
    audio_paths = paths;
    industry = industry;
    agent_id = m.agent_id;
    store_id = m.store_id;
    customer_name = m.customer_name;
  }

  -- from the writing of the audio to the end
  store_upload : String → Intake → Intake
  unfolding payload_of
  store_upload industry s =
      let chunks = chunk call.is_letterless settings.chunk_bytes audio in
      let (written, paths) = write_parts call.part_path 0 chunks s in
      let consented = log_consent call.now tenant_id call.conversation_id m.agent_id true written in
      let keyed =
        if falsy m.client_ref
        then consented
        else idempotency_set tenant_id m.client_ref call.conversation_id consented in
      let queued = record keyed {
        queue =
            (enqueue call.now tenant_id call.conversation_id (payload_of industry paths)
              keyed.queue).0;
      } in
      log
        (ingested tenant_id call.conversation_id m.agent_id m.store_id (length audio)
          (length paths))
        queued

  -- the look-up of the client's reference
  unfoldable pub known : Intake → Option String
  known s = if falsy m.client_ref then none else idempotency_get tenant_id m.client_ref s

  -- `if existing:` is false for an empty id too
  unfoldable pub take_in : String → Option String → Intake → Result
  unfolding store_upload
  take_in industry none s = ok (store_upload industry s) call.conversation_id
  take_in industry (some existing) s =
      if falsy existing
      then ok (store_upload industry s) call.conversation_id
      else ok (log (duplicate_upload_ignored tenant_id existing m.client_ref) s) existing

  unfoldable pub in_industry : Option String → Intake → Result
  unfolding take_in known
  in_industry none s = err unknown_tenant
  in_industry (some industry) s =
      if too_long settings m.agent_id
      then err field_too_long
      else if too_long settings m.store_id
      then err field_too_long
      else if too_long settings m.customer_name
      then err field_too_long
      else if too_long settings m.client_ref
      then err field_too_long
      else take_in industry (known s) s

  unfoldable pub submit : Intake → Result
  unfolding in_industry
  submit s =
      if not m.captured
      then err consent_required
      else if length audio == 0
      then err empty_upload
      else if ltb settings.max_upload_bytes (length audio)
      then err upload_too_large
      else in_industry (tenant_industry tenant_id s) s
