-- ===== src/Enterprise/Extraction/Flow.antt =====
-- From the extraction to the dispatcher: what is flagged for verification is not sent
-- (voclyp/enterprise/extraction/bedrock_worker.py and routing/dispatcher.py).
use voclyp_dev.Prelude.{
  ℕ, ◌≡◌, ◌≢◌, refl, subst, ◌∙◌, String, true, false, Option, none, some, arith, find, eq_iff, Text,
}
use voclyp_dev.Prelude.Keys.{Keyed}
use voclyp_dev.Enterprise.States.{extracting, legal}
use voclyp_dev.Enterprise.Extraction.{Extraction}
use voclyp_dev.Enterprise.Extraction.Worker.{
  InsightExtracted, done, transcript_of, requires_verification, with_extraction, attempt,
  from_state, handle_transcript,
}
use voclyp_dev.Enterprise.Conversations.{
  Conversation, Schemas, assign, get_conversation, update_fields,
}
use voclyp_dev.Enterprise.Conversations.Laws.{set_state-legal, update_fields-get}
use voclyp_dev.Enterprise.Routing.{Channel, whatsapp, zoho, held, at_channel, Row, Tables}
use voclyp_dev.Enterprise.Routing.Dispatch.{World, handle}
use voclyp_dev.Enterprise.Routing.Dispatch.Retry.{row_of}
use voclyp_dev.Enterprise.Routing.Dispatch.Hold.{handle-held}

-- The row as the extraction leaves it.
abbrev pub extracted : ℕ → ℕ → Extraction → Conversation → Conversation
extracted now threshold e c =
    let c' = with_extraction threshold e (assign now extracting (λ c. c) c) in
    record c' { updated_at = now }

module _ (now threshold : ℕ) (extract : Text → Option Extraction) (failure : Text) where
  -- A conversation that may be extracted, with a transcript from which an extraction was made, has
  -- the extraction in its row afterwards, and the event carries the row's flag.
  handle_transcript-stores :
      (id : String) (c : Conversation) (e : Extraction) (s : Schemas)
      → get_conversation id s ≡ some c
      → legal c.state extracting ≡ true
      → extract (transcript_of c) ≡ some e
      → (s' : Schemas) × (event : InsightExtracted) × (handle_transcript now threshold extract
            failure false id s
          ≡ done s' (some event))
        × (get_conversation id s' ≡ some (extracted now threshold e c))
        × (event.requires_human_verification ≡ requires_verification threshold e)
  unfolding handle_transcript from_state attempt
  handle_transcript-stores id c e s found l made =
      let (m, moved, r) = set_state-legal now id extracting (λ c. c) (λ c. refl) s c found l in
      let middle : get_conversation id m ≡ some (assign now extracting (λ c. c) c) =
        r.get id ∙ rw ((eq_iff id id).1 refl) refl in
      (
        update_fields now id (with_extraction threshold e) m,
        record {
          conversation_id = id;
          tenant_id = c.tenant_id;
          requires_human_verification = requires_verification threshold e;
        },
        rw (handle_transcript, found, moved, made) refl,
        update_fields-get now id extracting (with_extraction threshold e) (λ c. refl) m
            (assign now extracting (λ c. c) c) middle,
        refl,
      )

  -- An extraction with an EMI figure, or less sure than the threshold, is handled so that the
  -- dispatcher, given the conversation afterwards, leaves the WhatsApp message in the outbox, held
  -- and not attempted, where ids of rows are unique, the new ids are new and the conversation has no
  -- WhatsApp row yet.
  pub handle_transcript-held :
      (w : World) (later : ℕ) (fresh : Channel → String) (id : String) (c : Conversation)
      (e : Extraction) (s s' s'' : Schemas) (t t' : Tables) (event : InsightExtracted)
      → get_conversation id s ≡ some c
      → legal c.state extracting ≡ true
      → extract (transcript_of c) ≡ some e
      → requires_verification threshold e ≡ true
      → fresh zoho ≢ fresh whatsapp
      → Keyed Row.id t.outbox
      → row_of (fresh whatsapp) t ≡ none
      → find (at_channel c.id whatsapp) t.outbox ≡ none
      → handle_transcript now threshold extract failure false id s ≡ done s' (some event)
      → handle w later fresh e id s' t ≡ some (s'', t')
      → (row : Row) × (row_of (fresh whatsapp) t' ≡ some row)
        × (row.channel ≡ whatsapp)
        × (row.status ≡ held)
        × (row.attempts ≡ 0)
  handle_transcript-held w later fresh id c e s s' s'' t t' event found l made flagged apart keyed
        new free handled routed =
      let (m, event', ran, stored, flag) = handle_transcript-stores id c e s found l made in
      let same : m ≡ s' = ground (arith, ran) in
      handle-held w later fresh (extracted now threshold e c) flagged apart e id s' s'' t t'
        (subst (λ r. get_conversation id r ≡ some (extracted now threshold e c)) same stored) keyed
        new free routed
