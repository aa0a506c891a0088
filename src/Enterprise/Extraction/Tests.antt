-- ===== src/Enterprise/Extraction/Tests.antt =====
-- An extraction with an EMI figure (voclyp/enterprise/extraction) on its way to the dispatcher.
use voclyp_dev.Prelude.{
  if◌then◌else◌, ◌≡◌, ◌≢◌, refl, String, Bool, true, false, Option, none, some, [], ◌∷◌, Text,
  codes, eq_iff,
}
use voclyp_dev.Enterprise.States.{State, transcribing, dispatching, legal}
use voclyp_dev.Enterprise.Conversations.{
  Conversation, Schemas, no_detail, get_conversation, set_state, update_fields,
}
use voclyp_dev.Enterprise.Extraction.{Extraction}
use voclyp_dev.Enterprise.Extraction.Worker.{
  InsightExtracted, done, requires_verification, attempt, from_state, handle_transcript,
}
use voclyp_dev.Enterprise.Extraction.Flow.{extracted, handle_transcript-held}
use voclyp_dev.Enterprise.Routing.{Channel, push, whatsapp, zoho, held, Row, Tables}
use voclyp_dev.Enterprise.Routing.Payloads.{build_payloads}
use voclyp_dev.Enterprise.Routing.Dispatch.{
  routed, World, accepted, refused, deliver_ready, handle, insert_all,
}
use voclyp_dev.Enterprise.Routing.Dispatch.Retry.{row_of}

-- clients that accept every message, or refuse it
abbrev world : Bool → World
world accepting = record {
  clients = λ c. some (λ payload key. if accepting then accepted none none else refused none);
  sha256 = λ t. t;
  canonical = λ p. [];
  digits = λ n. n ∷ [];
  dlq_id = λ id. id;
}

abbrev extraction : Extraction
extraction = record {
  posture_issues = [];
  pricing_objections = codes "too dear" ∷ [];
  competitor_mentions = [];
  emi_commitments = 1;
  action = codes "call back";
  talking_point = codes "thanks";
  overall_confidence = 95;
}

abbrev conversation : Conversation
conversation = record {
  id = "c1";
  tenant_id = "t1";
  store_id = "s1";
  consent_log_id = "k1";
  audio_sha256 = [];
  s3_key = "t1/c1.wav";
  state = transcribing;
  error_detail = no_detail;
  agent_id = "a1";
  transcript_codemix = none;
  transcript_english = some (codes "EMI");
  detected_languages = [];
  duration_ms = none;
  asr_path = none;
  extraction = none;
  extraction_confidence = none;
  requires_human_verification = false;
  verified_by = none;
  verified_at = none;
  erase_after = 10;
  erased_at = none;
  created_at = 1;
  updated_at = 1;
}

abbrev fresh : Channel → String
fresh push = "r3"
fresh whatsapp = "r2"
fresh zoho = "r1"

abbrev schemas : Schemas
schemas = (conversation ∷ []) ∷ []

abbrev no_rows : Tables
no_rows = record { outbox = []; dead = [] }

abbrev extract : Text → Option Extraction
extract text = some extraction

abbrev event : InsightExtracted
event = record { conversation_id = "c1"; tenant_id = "t1"; requires_human_verification = true }

abbrev conversation_extracted : Conversation
conversation_extracted = extracted 4 70 extraction conversation

abbrev conversation_after : Conversation
conversation_after = record conversation_extracted { state = dispatching; updated_at = 5 }

abbrev tables_after : Tables
tables_after = deliver_ready (world true) 5 "c1" (
    insert_all (world true) 5 fresh conversation_after
      (build_payloads (world true).digits "c1" "a1" extraction true) no_rows)

stored : get_conversation "c1" schemas ≡ some conversation
unfolding get_conversation
stored = refl

is_legal : legal transcribing State.extracting ≡ true
unfolding legal
is_legal = refl

flagged : requires_verification 70 extraction ≡ true
unfolding requires_verification
flagged = refl

handled :
    handle_transcript 4 70 extract [] false "c1" schemas
    ≡ done ((conversation_extracted ∷ []) ∷ []) (some event)
unfolding handle_transcript from_state attempt get_conversation set_state update_fields legal
    requires_verification
handled = refl

routes :
    handle (world true) 5 fresh extraction "c1" ((conversation_extracted ∷ []) ∷ []) no_rows
    ≡ some ((conversation_after ∷ []) ∷ [], tables_after)
unfolding handle routed get_conversation set_state legal requires_verification
routes = refl

fresh_apart : ◌≢◌ {A = String} "r1" "r2"
fresh_apart h = cc ((eq_iff "r1" "r2").1 h)

handle_transcript-held_example :
    (x : Row) × (row_of "r2" tables_after ≡ some x)
    × (x.channel ≡ whatsapp)
    × (x.status ≡ held)
    × (x.attempts ≡ 0)
handle_transcript-held_example =
    handle_transcript-held 4 70 extract [] (world true) 5 fresh "c1" conversation extraction schemas
      ((conversation_extracted ∷ []) ∷ []) ((conversation_after ∷ []) ∷ []) no_rows tables_after
      event stored is_legal refl flagged fresh_apart tt refl refl handled routes
