-- ===== src/Enterprise/Routing/Dispatch/Tests.antt =====
-- The dispatcher (voclyp/enterprise/routing/dispatcher.py) with one conversation.
use voclyp_dev.Prelude.{
  if◌then◌else◌, ℕ, ◌≡◌, ◌≢◌, refl, arith, String, Bool, true, false, none, some, [], ◌∷◌, List,
  codes, eq_iff,
}
use voclyp_dev.Enterprise.States.{extracting, dispatching, legal}
use voclyp_dev.Enterprise.Conversations.{
  Conversation, Schemas, no_detail, get_conversation, set_state,
}
use voclyp_dev.Enterprise.Routing.{
  Channel, push, whatsapp, zoho, Status, pending, message, Row, Tables,
}
use voclyp_dev.Enterprise.Routing.Payloads.{Extraction, build_payloads}
use voclyp_dev.Enterprise.Routing.Dispatch.{
  routed, World, accepted, refused, deliver_ready, handle, insert_all,
}
use voclyp_dev.Enterprise.Routing.Dispatch.Retry.{attempts_at, Finished, attempts_at-Finished}

-- clients that accept every message, or refuse it
abbrev world : Bool → World
world accepting = record {
  clients = λ c. some (λ payload key. if accepting then accepted none none else refused none);
  sha256 = λ t. t;
  canonical = λ p. [];
  digits = λ n. n ∷ [];
  dlq_id = λ id. id;
}

abbrev extraction : Extraction
extraction = record {
  posture_issues = [];
  pricing_objections = codes "too dear" ∷ [];
  competitor_mentions = [];
  emi_commitments = 1;
  action = codes "call back";
  talking_point = codes "thanks";
  overall_confidence = 80;
}

abbrev conversation : Conversation
conversation = record {
  id = "c1";
  tenant_id = "t1";
  store_id = "s1";
  consent_log_id = "k1";
  audio_sha256 = [];
  s3_key = "t1/c1.wav";
  state = extracting;
  error_detail = no_detail;
  agent_id = "a1";
  transcript_codemix = none;
  transcript_english = none;
  detected_languages = [];
  duration_ms = none;
  asr_path = none;
  extraction = none;
  extraction_confidence = none;
  requires_human_verification = true;
  verified_by = none;
  verified_at = none;
  erase_after = 10;
  erased_at = none;
  created_at = 1;
  updated_at = 1;
}

abbrev schemas : Schemas
schemas = (conversation ∷ []) ∷ []

abbrev no_rows : Tables
no_rows = record { outbox = []; dead = [] }

abbrev fresh : Channel → String
fresh push = "r3"
fresh whatsapp = "r2"
fresh zoho = "r1"

abbrev row : Status → Row
row status = record {
  id = "r2";
  tenant_id = "t1";
  conversation_id = "c1";
  channel = whatsapp;
  status = status;
  attempts = 0;
  max_attempts = 1;
  idempotency_key = [];
  payload = message "c1" [] (codes "thanks") true;
  response = none;
  detail = none;
  next_retry_at = 1;
  created_at = 1;
  updated_at = 1;
}

abbrev tables : Status → Tables
tables status = record { outbox = row status ∷ []; dead = [] }

abbrev rounds : List (World × ℕ)
rounds = (world false, 5) ∷ (world false, 200) ∷ []

attempts_at-Finished_example :
    Finished (row pending) "r2" (attempts_at rounds "r2" (tables pending))
attempts_at-Finished_example =
    attempts_at-Finished rounds "r2" (tables pending) (row pending) refl refl (omega arith)
      (omega arith)

abbrev conversation_after : Conversation
conversation_after = record conversation { state = dispatching; updated_at = 5 }

abbrev tables_after : Tables
tables_after = deliver_ready (world true) 5 "c1" (
    insert_all (world true) 5 fresh conversation_after
      (build_payloads (world true).digits "c1" "a1" extraction true) no_rows)

stored : get_conversation "c1" schemas ≡ some conversation
unfolding get_conversation
stored = refl

handles :
    handle (world true) 5 fresh extraction "c1" schemas no_rows
    ≡ some ((conversation_after ∷ []) ∷ [], tables_after)
unfolding handle routed get_conversation set_state legal
handles = refl

fresh_apart : ◌≢◌ {A = String} "r1" "r2"
fresh_apart h = cc ((eq_iff "r1" "r2").1 h)
