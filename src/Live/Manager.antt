-- ===== src/Live/Manager.antt =====
-- `LiveSessionManager` of voclyp/live/session.py. The streaming recognizer calls a service and is an
-- argument, as are the paths, the merging of files by ffmpeg, and the texts of the ids.
mod Types
mod Tests
pub mod Ended
pub mod Entities
pub use Types.{
  Partial, Recognizer, Paths, Event, partial_transcript, entity_name, entity_phone, Ending, queued,
  not_found, not_completable, too_short, rejected, State,
}
use voclyp_dev.Prelude.{
  ℕ, zero, ◌+◌, String, Bool, true, false, not, ◌&&◌, ◌||◌, Option, none, some, List, [], ◌∷◌, ◌++◌,
  if◌then◌else◌, ltb, is_some, str_eq, length, lookup, insert, Text, ◌==◌,
}
use voclyp_dev.Ingestion.Tables.{Intake, write_file}
use voclyp_dev.Ingestion.{Settings, Metadata, Call, Result, Error, ok, err, submit}
use voclyp_dev.Meters.{Meters, add_usage}
use voclyp_dev.Live.{
  Status, identity, active, processing, complete, Source, manual, asr, Session, Chunk, Visits,
  create_live_session, get_live_session, update_live_session_customer,
  update_live_session_transcript, set_live_session_status, append_session_chunk,
  list_session_chunks,
}

-- `name_source != "manual"`
abbrev pub not_manual : Option Source → Bool
not_manual none = true
not_manual (some asr) = true
not_manual (some manual) = false

abbrev name_source_of : Option Session → Option Source
name_source_of none = none
name_source_of (some s) = s.name_source

abbrev phone_source_of : Option Session → Option Source
phone_source_of none = none
phone_source_of (some s) = s.phone_source

-- `if ents.get("name"):` and what follows
unfoldable pub hear_name : String → String → String → Visits → Visits × List Event
hear_name tenant_id session_id name v =
    if str_eq name ""
    then (v, [])
    else if not_manual (name_source_of (get_live_session tenant_id session_id v))
    then (
      update_live_session_customer tenant_id session_id (some name) none asr v,
      entity_name name ∷ [],
    )
    else (v, [])

unfoldable pub hear_phone : String → String → String → Visits → Visits × List Event
hear_phone tenant_id session_id phone v =
    if str_eq phone ""
    then (v, [])
    else if not_manual (phone_source_of (get_live_session tenant_id session_id v))
    then (
      update_live_session_customer tenant_id session_id none (some phone) asr v,
      entity_phone phone ∷ [],
    )
    else (v, [])

-- what follows `if partial:`
unfoldable pub hear : String → String → Option Partial → Visits → Visits × List Event
hear tenant_id session_id none v = (v, [])
hear tenant_id session_id (some p) v =
    let written = update_live_session_transcript tenant_id session_id p.text v in
    let (named, names) = hear_name tenant_id session_id p.name written in
    let (phoned, phones) = hear_phone tenant_id session_id p.phone named in
    (phoned, partial_transcript p.text ∷ (names ++ phones))

-- `patch_customer`
abbrev pub patch_customer :
    String → String → Option String → Option String → Source → Visits → Visits
patch_customer tenant_id session_id name phone source v =
    update_live_session_customer tenant_id session_id name phone source v

pub consent : ℕ → String → String → Visits → Visits
consent now tenant_id session_id v =
    set_live_session_status now tenant_id session_id active true none v

pub mark_complete : ℕ → String → String → Visits → Visits
mark_complete now tenant_id session_id v =
    set_live_session_status now tenant_id session_id complete false none v

abbrev text_or : Option String → String
text_or none = ""
text_or (some t) = t

-- the metadata of the upload
abbrev metadata_of : Paths → Session → Metadata
metadata_of paths s = record {
  captured = is_some s.consent_at;
  agent_id = s.agent_id;
  store_id = s.store_id;
  customer_name = text_or s.customer_name;
  client_ref = paths.client_ref s.session_id;
}

abbrev completable : Status → Bool
completable identity = true
completable active = true
completable processing = false
completable complete = false

-- the chunk files that exist, read
read_chunks : List Chunk → List (String × Text) → List Text
read_chunks [] files = []
read_chunks (c ∷ chunks) files =
    let rest = read_chunks chunks files in
    elim (lookup c.chunk_path files) [ none ↦ rest | some bytes ↦ bytes ∷ rest ]

-- `final_audio`, or the merged chunks if there are any
audio_or : Paths → Text → List Text → Text
audio_or paths (c ∷ audio) files = c ∷ audio
audio_or paths [] [] = []
audio_or paths [] (f ∷ files) = paths.merge_files_to_bytes (f ∷ files)

module _ {Asr : Type 0} (r : Recognizer Asr) (paths : Paths) where
  -- `start`
  pub start : ℕ → String → String → String → String → State Asr → Option (State Asr)
  start now tenant_id session_id store_id agent_id s =
      elim (create_live_session now tenant_id session_id store_id agent_id s.visits) [
        | none ↦ none
        | some visits ↦
            some
              (record s { visits = visits; recognizers = insert session_id r.fresh s.recognizers })
      ]

  -- `reset_asr`
  pub reset_asr : String → String → State Asr → State Asr
  reset_asr tenant_id session_id s = record s {
    recognizers = insert session_id r.fresh s.recognizers;
    visits = update_live_session_transcript tenant_id session_id "" s.visits;
  }

  -- `setdefault(session_id, StreamingASR())`
  recognizer_of : String → State Asr → Asr
  recognizer_of session_id s = elim (lookup session_id s.recognizers) [
    | none ↦ r.fresh
    | some a ↦ a
  ]

  -- `process_chunk`
  pub process_chunk : ℕ → String → String → ℕ → Text → State Asr → State Asr × List Event
  unfolding recognizer_of
  process_chunk now tenant_id session_id seq bytes s =
      let path = paths.chunk_path session_id seq in
      let appended = append_session_chunk now tenant_id session_id seq path s.visits in
      let (a, partial) = r.add_chunk (recognizer_of session_id s) bytes in
      let (visits, events) = hear tenant_id session_id partial appended in
      (
        record s {
          visits = visits;
          intake = write_file path bytes s.intake;
          recognizers = insert session_id a s.recognizers;
        },
        events,
      )

  without_recognizer : String → List (String × Asr) → List (String × Asr)
  without_recognizer session_id [] = []
  without_recognizer session_id ((k, a) ∷ d) =
      let rest = without_recognizer session_id d in
      if str_eq k session_id then rest else (k, a) ∷ rest

  -- `if asr and getattr(asr, "sarvam_calls", 0)`
  metered : ℕ → String → String → Option Asr → Meters → Meters
  metered now tenant_id conversation_id none m = m
  metered now tenant_id conversation_id (some a) m =
      if r.sarvam_calls a == 0
      then m
      else add_usage now tenant_id conversation_id
          (("sarvam:speech-to-text-streaming", r.sarvam_calls a) ∷ []) m

  submitted : ℕ → String → String → Result → State Asr → State Asr × Ending
  unfolding without_recognizer metered
  submitted now tenant_id session_id (err e) s = (s, rejected e)
  submitted now tenant_id session_id (ok intake conversation_id) s = (
    record {
      visits =
          set_live_session_status now tenant_id session_id processing false (some conversation_id)
            s.visits;
      intake = intake;
      meters = metered now tenant_id conversation_id (lookup session_id s.recognizers) s.meters;
      recognizers = without_recognizer session_id s.recognizers;
    },
    queued conversation_id,
  )

  end_session : Settings → Call → String → Text → Option Session → State Asr → State Asr × Ending
  unfolding submitted audio_or read_chunks
  end_session settings call tenant_id final_audio none s = (s, not_found)
  end_session settings call tenant_id final_audio (some session) s =
      let audio =
        audio_or paths final_audio (
          read_chunks (list_session_chunks tenant_id session.session_id s.visits) s.intake.files) in
      let sent =
        submitted call.now tenant_id session.session_id
          (submit settings call tenant_id audio (metadata_of paths session) s.intake) s in
      if completable session.status
      then if ltb (length audio) 8000 then (s, too_short) else sent
      else (s, not_completable session.status)

  -- `complete`; no final audio is the empty text
  pub complete_session : Settings → Call → String → String → Text → State Asr → State Asr × Ending
  unfolding end_session
  complete_session settings call tenant_id session_id final_audio s =
      end_session settings call tenant_id final_audio
        (get_live_session tenant_id session_id s.visits) s
