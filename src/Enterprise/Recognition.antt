-- ===== src/Enterprise/Recognition.antt =====
-- `SarvamAsrWorker` (voclyp/enterprise/asr/sarvam_worker.py): which way an audio is transcribed, and
-- the handler of `audio.raw.uploaded`. The Sarvam client, the batch job, the splitting of a WAV, its
-- normalization and duration, the offline mock and `str.strip` are arguments; `none` is an
-- exception that they raise.
mod Tests
pub mod Laws
use voclyp_dev.Prelude.{
  ℕ, ◌<◌, String, Bool, true, false, not, ◌&&◌, Option, none, some, List, [], ◌∷◌, ◌++◌,
  if◌then◌else◌, ltb, any, Text, text_eq, join, map, partition,
}
use voclyp_dev.Enterprise.States.{State, transcribing}
use voclyp_dev.Enterprise.Conversations.{
  Conversation, ErrorDetail, asr_failed, Schemas, Outcome, updated, illegal_transition,
  get_conversation, set_state, update_fields,
}

-- what `transcribe` returns
pub record Transcript : Type 0 where
  pub codemix : Text
  pub english : Text
  pub languages : List Text
  pub duration_ms : ℕ
  pub path : String

-- the client and what the worker takes from Python
pub record Sarvam : Type 0 where
  pub speech_to_text : Text → Option (Text × Text)
  pub stt_translate : Text → Option Text
  pub translate : Text → Option Text
  pub batch : Option (Text → ℕ → Option Transcript)
  pub split_wav_chunks : Text → List Text
  pub strip : Text → Text
  pub lower : Text → Text

-- `a or b`
abbrev or_text : Text → Text → Text
or_text [] b = b
or_text (c ∷ a) b = c ∷ a

-- `short(code)` of voclyp/languages.py
short : (Text → Text) → Text → Text
short lower code = lower (elim (partition 45 code) [ none ↦ code | some (a, b) ↦ a ])

-- `if detected: languages.append(detected)`
abbrev detected : Text → List Text
detected [] = []
detected (c ∷ code) = (c ∷ code) ∷ []

-- `if part: parts.append(part)`
abbrev and_part : Text → List Text → List Text
and_part [] parts = parts
and_part (c ∷ part) parts = (c ∷ part) ∷ parts

-- the languages that the earlier parts had not, behind theirs
abbrev and_languages : List Text → List Text → List Text
and_languages [] seen = seen
and_languages (l ∷ languages) seen =
    and_languages languages (if any (text_eq l) seen then seen else seen ++ l ∷ [])

module _ (c : Sarvam) where
  -- the fallback of `_english_transcript`
  translated : Text → Text
  translated [] = []
  translated (x ∷ codemix) = elim (c.translate (x ∷ codemix)) [
    | none ↦ x ∷ codemix
    | some english ↦ c.strip (or_text english (x ∷ codemix))
  ]

  -- `_english_transcript`
  pub english_transcript : Text → Text → Text
  unfolding translated
  english_transcript audio codemix = elim (c.stt_translate audio) [
    | none ↦ translated codemix
    | some english ↦ or_text (c.strip english) (translated codemix)
  ]

  -- `_transcribe_rest`
  pub transcribe_rest : Text → ℕ → String → Option Transcript
  unfolding english_transcript short
  transcribe_rest audio duration path = elim (c.speech_to_text audio) [
    | none ↦ none
    | some (text, code) ↦
        let codemix = c.strip text in
        some (record {
          codemix = codemix;
          english = english_transcript audio codemix;
          languages = detected (short c.lower code);
          duration_ms = duration;
          path = path;
        })
  ]

  -- what the loop over the chunks collects
  pub record Parts : Type 0 where
    pub codemix_parts : List Text
    pub english_parts : List Text
    pub languages : List Text

  collect : List Text → Parts → Option Parts
  unfolding transcribe_rest
  collect [] parts = some parts
  collect (chunk ∷ chunks) parts = elim (transcribe_rest chunk 0 "rest") [
    | none ↦ none
    | some part ↦ collect chunks (record {
      codemix_parts = parts.codemix_parts ++ and_part part.codemix [];
      english_parts = parts.english_parts ++ and_part part.english [];
      languages = and_languages part.languages parts.languages;
    })
  ]

  -- `_transcribe_chunked`
  pub transcribe_chunked : Text → ℕ → Option Transcript
  unfolding collect
  transcribe_chunked audio duration =
      elim (collect (c.split_wav_chunks audio)
        (record { codemix_parts = []; english_parts = []; languages = [] })) [
          | none ↦ none
          | some parts ↦ some (record {
            codemix = c.strip (join 32 parts.codemix_parts);
            english = c.strip (join 32 parts.english_parts);
            languages = parts.languages;
            duration_ms = duration;
            path = "rest-chunked";
          })
        ]

  -- `_transcribe_batch`, which raises where no batch is configured
  pub transcribe_batch : Text → ℕ → Option Transcript
  transcribe_batch audio duration = elim c.batch [ none ↦ none | some run ↦ run audio duration ]

  -- `transcribe` with a client, on the normalized audio and its duration
  pub transcribe : ℕ → Text → ℕ → Option Transcript
  unfolding transcribe_batch transcribe_chunked transcribe_rest
  transcribe rest_limit_ms audio duration =
      let whole = transcribe_batch audio duration in
      if ltb rest_limit_ms duration
      then elim whole [ none ↦ transcribe_chunked audio duration | some t ↦ some t ]
      else transcribe_rest audio duration "rest"

-- the event `transcript.ready`
pub record TranscriptReady : Type 0 where
  pub conversation_id : String
  pub tenant_id : String

-- a call of the handler: an illegal transition is raised, all other exceptions are caught
pub data Handled : Type 0 where
  raised : Handled
  done : Schemas → Option TranscriptReady → Handled

abbrev pub with_transcript : Transcript → Conversation → Conversation
with_transcript t c = record c {
  transcript_codemix = some t.codemix;
  transcript_english = some t.english;
  detected_languages = t.languages;
  duration_ms = some t.duration_ms;
  asr_path = some t.path;
}

abbrev pub with_failure : Text → Conversation → Conversation
with_failure failure c = record c { error_detail = asr_failed failure }

-- `fetch` reads the audio of a key and transcribes it
module _ (now : ℕ) (fetch : String → Option Transcript) (failure : Text) (bus_raises : Bool) where
  -- the body of the `try`
  unfoldable pub attempt : String → Conversation → Schemas → Option Transcript → Handled
  attempt id conv s none = done (update_fields now id (with_failure failure) s) none
  attempt id conv s (some t) =
      let s' = update_fields now id (with_transcript t) s in
      if bus_raises
      then done (update_fields now id (with_failure failure) s') none
      else done s' (some (record { conversation_id = id; tenant_id = conv.tenant_id }))

  unfoldable pub from_state : String → Conversation → Outcome → Handled
  unfolding attempt
  from_state id conv illegal_transition = raised
  from_state id conv (updated s) = attempt id conv s (fetch conv.s3_key)

  -- `handle(event)` for the event's conversation
  unfoldable pub handle_audio : String → Schemas → Handled
  unfolding from_state
  handle_audio conversation_id schemas = elim (get_conversation conversation_id schemas) [
    | none ↦ done schemas none
    | some conv ↦
        from_state conversation_id conv
          (set_state now conversation_id transcribing (λ c. c) schemas)
  ]
