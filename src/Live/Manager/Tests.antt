-- ===== src/Live/Manager/Tests.antt =====
-- One visit (voclyp/live/session.py), with a recognizer that hears a name and no phone number.
use voclyp_dev.Prelude.{ℕ, zero, suc, ◌≡◌, refl, none, some, [], ◌∷◌, Text}
use voclyp_dev.Queue.{init}
use voclyp_dev.Ingestion.Tables.{tenant_industry, idempotency_get}
use voclyp_dev.Ingestion.{Settings, Call, known, submit, in_industry, take_in}
use voclyp_dev.Live.{Session, active, manual, get_live_session}
use voclyp_dev.Live.Manager.{State, Recognizer, Paths, queued, complete_session}
use voclyp_dev.Live.Manager.Entities.{Typed}

abbrev recognizer : Recognizer ℕ
recognizer = record {
  fresh = 0;
  add_chunk = λ n bytes. (suc n, some (record { text = "hello"; name = "Asha"; phone = "" }));
  sarvam_calls = λ n. n;
}

abbrev paths : Paths
paths = record {
  chunk_path = λ id seq. "chunk";
  merge_files_to_bytes = λ files. [];
  client_ref = λ id. id;
}

abbrev visit : Session
visit = record {
  tenant_id = "t1";
  session_id = "v1";
  store_id = "s1";
  agent_id = "a1";
  status = active;
  customer_name = some "Ravi";
  customer_phone = none;
  name_source = some manual;
  phone_source = none;
  partial_transcript = "";
  consent_at = some 4;
  conversation_id = none;
  started_at = 3;
  ended_at = none;
}

abbrev state : State ℕ
state = record {
  visits = record { sessions = visit ∷ []; chunks = [] };
  intake = record {
    tenants = record { tenant_id = "t1"; name = "Shop"; industry = "retail"; region = "in" } ∷ [];
    consents = [];
    refs = [];
    files = [];
    queue = init 3;
    audits = [];
  };
  meters = record { metrics = []; usage = []; feedback = []; audits = [] };
  recognizers = [];
}

typed : Typed "t1" "v1" (some "Ravi") state.visits
unfolding get_live_session
typed = (visit, refl, refl, refl)

abbrev settings : Settings
settings = record { chunk_bytes = 10000; max_upload_bytes = 10000; max_metadata_field_len = 10 }

abbrev call : Call
call = record {
  now = 6;
  conversation_id = "cv1";
  part_path = λ i. "part";
  is_letterless = λ sample. none;
}

abbrev silence : ℕ → Text
silence zero = []
silence (suc n) = 0 ∷ silence n

abbrev ended : State ℕ
ended = (complete_session recognizer paths settings call "t1" "v1" (silence 8000) state).0

end_accepted :
    complete_session recognizer paths settings call "t1" "v1" (silence 8000) state
    ≡ (ended, queued "cv1")
unfolding complete_session get_live_session submit in_industry tenant_industry known take_in
    idempotency_get
end_accepted = refl
