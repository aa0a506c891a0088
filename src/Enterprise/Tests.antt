-- ===== src/Enterprise/Tests.antt =====
-- The conversation states and the erasure workers (voclyp/enterprise) on one conversation.
use voclyp_dev.Prelude.{◌≡◌, refl, String, Bool, true, false, none, some, List, [], ◌∷◌}
use voclyp_dev.Enterprise.States.{
  State, consent_logged, audio_uploaded, transcribing, extracting, dispatching, purged, IsHistory,
  purged_history, legal,
}
use voclyp_dev.Enterprise.Conversations.{
  Conversation, no_detail, Schemas, get_conversation, due_erasures,
}
use voclyp_dev.Enterprise.Erasure.{Depot, Report, run_once}
use voclyp_dev.Enterprise.Erasure.Accounts.{Accounts, run_once-Accounts}

abbrev ladder_to_purged : List State
ladder_to_purged = audio_uploaded ∷ transcribing ∷ extracting ∷ dispatching ∷ purged ∷ []

is_history : IsHistory consent_logged ladder_to_purged
unfolding legal
is_history = (refl, refl, (refl, refl, (refl, refl, (refl, refl, (refl, refl, tt)))))

purged_history_example :
    ladder_to_purged ≡ audio_uploaded ∷ transcribing ∷ extracting ∷ dispatching ∷ purged ∷ []
purged_history_example = purged_history ladder_to_purged is_history refl

abbrev conversation : Conversation
conversation = record {
  id = "c1";
  tenant_id = "t1";
  store_id = "s1";
  consent_log_id = "k1";
  audio_sha256 = [];
  s3_key = "t1/c1.wav";
  state = dispatching;
  error_detail = no_detail;
  agent_id = "a1";
  transcript_codemix = none;
  transcript_english = none;
  detected_languages = [];
  duration_ms = none;
  asr_path = none;
  extraction = none;
  extraction_confidence = none;
  requires_human_verification = false;
  verified_by = none;
  verified_at = none;
  erase_after = 10;
  erased_at = none;
  created_at = 1;
  updated_at = 1;
}

abbrev schemas : Schemas
schemas = (conversation ∷ []) ∷ []

abbrev depot : Depot
depot = record { schemas = schemas; objects = "t1/c1.wav" ∷ "t1/c2.wav" ∷ [] }

abbrev no_raise : String → Bool
no_raise key = false

abbrev all_raise : String → Bool
all_raise key = true

has_conversation : get_conversation "c1" schemas ≡ some conversation
unfolding get_conversation
has_conversation = refl

abbrev no_report : Report
no_report = record { erased = 0; errors = 0 }

is_due : due_erasures 12 100 depot.schemas ≡ conversation ∷ []
unfolding due_erasures
is_due = refl

run_once-Accounts_example :
    Accounts no_raise 12
      (due_erasures 12 100 depot.schemas)
      depot
      no_report
      (run_once no_raise 12 100 depot).0
      (run_once no_raise 12 100 depot).1
run_once-Accounts_example =
    run_once-Accounts no_raise 12 100 depot (rw is_due (has_conversation, tt)) (rw is_due (tt, tt))
