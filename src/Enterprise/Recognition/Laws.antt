-- ===== src/Enterprise/Recognition/Laws.antt =====
-- What the recognition of a conversation leaves behind (voclyp/enterprise/asr/sarvam_worker.py).
use voclyp_dev.Prelude.{
  ℕ, ◌<◌, ◌≡◌, refl, ◌∙◌, String, Bool, true, false, Option, none, some, arith, eq_iff, Text,
}
use voclyp_dev.Enterprise.States.{transcribing, legal}
use voclyp_dev.Enterprise.Conversations.{
  Conversation, ErrorDetail, Schemas, assign, get_conversation, update_fields, is_orphan,
}
use voclyp_dev.Enterprise.Conversations.Laws.{set_state-legal, set_state-illegal, update_fields-get}
use voclyp_dev.Enterprise.Recognition.{
  Transcript, Sarvam, transcribe, transcribe_batch, transcribe_chunked, raised, done, with_failure,
  attempt, from_state, handle_audio,
}

-- A recording over the limit of the REST interface whose batch raises is transcribed in chunks.
pub transcribe-falls_back :
    (c : Sarvam) (rest_limit_ms : ℕ) (audio : Text) (duration : ℕ)
    → rest_limit_ms < duration
    → transcribe_batch c audio duration ≡ none
    → transcribe c rest_limit_ms audio duration ≡ transcribe_chunked c audio duration
unfolding transcribe
transcribe-falls_back c rest_limit_ms audio duration long failed = ground (arith, failed)

module _ (now : ℕ) (fetch : String → Option Transcript) (failure : Text) (bus_raises : Bool) where
  -- When the recognition of a stored conversation that may be transcribed raises, no event goes out,
  -- and the row keeps the reason and stays in a state from which every sweep after its creation
  -- takes it for an orphan.
  pub handle_audio-failed :
      (id : String) (c : Conversation) (s : Schemas) (cutoff : ℕ)
      → get_conversation id s ≡ some c
      → legal c.state transcribing ≡ true
      → fetch c.s3_key ≡ none
      → c.created_at < cutoff
      → (s' : Schemas) × (row : Conversation) × (handle_audio now fetch failure bus_raises id s
          ≡ done s' none)
        × (get_conversation id s' ≡ some row)
        × (row.error_detail ≡ ErrorDetail.asr_failed failure)
        × (is_orphan cutoff row ≡ true)
  unfolding handle_audio from_state attempt
  handle_audio-failed id c s cutoff found l lost young =
      let (m, moved, r) = set_state-legal now id transcribing (λ c. c) (λ c. refl) s c found l in
      let middle : get_conversation id m ≡ some (assign now transcribing (λ c. c) c) =
        r.get id ∙ rw ((eq_iff id id).1 refl) refl in
      let row : Conversation =
        let c' = with_failure failure (assign now transcribing (λ c. c) c) in
        record c' { updated_at = now } in
      (
        update_fields now id (with_failure failure) m,
        row,
        rw (handle_audio, found, moved, lost) refl,
        update_fields-get now id transcribing (with_failure failure) (λ c. refl) m
            (assign now transcribing (λ c. c) c) middle,
        refl,
        ground arith,
      )

  -- An event for a conversation that is past its transcription raises.
  pub handle_audio-late :
      (id : String) (c : Conversation) (s : Schemas)
      → get_conversation id s ≡ some c
      → legal c.state transcribing ≡ false
      → handle_audio now fetch failure bus_raises id s ≡ raised
  unfolding handle_audio from_state
  handle_audio-late id c s found late =
      rw
        (
          handle_audio,
          found,
          set_state-illegal now id transcribing (λ c. c) (λ c. refl) s c found late,
        )
        refl
