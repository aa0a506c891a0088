-- ===== src/Ingestion/Tests.antt =====
-- One upload of voclyp/ingestion.py, and the same upload again.
use voclyp_dev.Prelude.{
  ℕ, zero, suc, ◌≡◌, refl, ap, sym, ◌∙◌, length, codes, arith, String, Bool, true, false, Option,
  none, [], ◌∷◌, Text,
}
use voclyp_dev.Queue.{init}
use voclyp_dev.Ingestion.Chunks.{chunk}
use voclyp_dev.Ingestion.Chunks.Laws.{Covers, chunk-Covers}
use voclyp_dev.Ingestion.Tables.{
  Intake, tenant_industry, idempotency_get, duplicate_upload_ignored, log,
}
use voclyp_dev.Ingestion.{
  in_industry, known, take_in, Settings, Metadata, Call, consent_required, ok, err, store_upload,
  submit,
}
use voclyp_dev.Ingestion.Stored.{Stored, submit-Stored}
use voclyp_dev.Ingestion.Again.{submit-again}

abbrev settings : Settings
settings = record { chunk_bytes = 3; max_upload_bytes = 100; max_metadata_field_len = 10 }

abbrev metadata : Metadata
metadata = record {
  captured = true;
  agent_id = "a1";
  store_id = "s1";
  customer_name = "";
  client_ref = "phone-1";
}

-- a sample that does not decode, which is audio
abbrev is_letterless : Text → Option Bool
is_letterless sample = none

-- a path for each part: the number in strokes
abbrev part_path : ℕ → String
part_path zero = ""
part_path (suc n) = String.◌∷◌ "|" (part_path n)

length-part_path : (n : ℕ) → length (codes (part_path n)) ≡ n
length-part_path zero = refl
length-part_path (suc n) = ap suc (length-part_path n)

part_path_apart : (i j : ℕ) → part_path i ≡ part_path j → i ≡ j
part_path_apart i j h =
    sym (length-part_path i) ∙ (ap (λ s. length (codes s)) h ∙ length-part_path j)

abbrev call : Call
call = record {
  now = 5;
  conversation_id = "cv1";
  part_path = λ i. part_path i;
  is_letterless = is_letterless;
}

abbrev before : Intake
before = record {
  tenants = record { tenant_id = "t1"; name = "Shop"; industry = "retail"; region = "in" } ∷ [];
  consents = [];
  refs = [];
  files = [];
  queue = init 3;
  audits = [];
}

abbrev audio : Text
audio = 1 ∷ 2 ∷ 10 ∷ 4 ∷ []

abbrev after : Intake
after = store_upload settings call "t1" audio metadata "retail" before

accepts : submit settings call "t1" audio metadata before ≡ ok after "cv1"
unfolding submit in_industry known take_in tenant_industry idempotency_get
accepts = refl

refuses :
    submit settings call "t1" audio (record metadata { captured = false }) before
    ≡ err consent_required
unfolding submit
refuses = refl

chunk-Covers_example : Covers 3 audio (chunk is_letterless 3 audio)
chunk-Covers_example = chunk-Covers is_letterless 3 audio (omega arith)

is_new : idempotency_get "t1" "phone-1" before ≡ none
unfolding idempotency_get
is_new = refl

submit-again_example :
    submit settings call "t1" audio metadata after
    ≡ ok (log (duplicate_upload_ignored "t1" "cv1" "phone-1") after) "cv1"
submit-again_example =
    submit-again settings call call "t1" audio metadata before after "cv1" refl refl is_new accepts

is_new_call : known settings call "t1" audio metadata before ≡ none
unfolding known idempotency_get
is_new_call = refl

submit-Stored_example :
    (metadata.captured ≡ true)
    × (◌≡◌ {A = String} "cv1" call.conversation_id)
    × Stored "t1" "cv1" audio before after
submit-Stored_example =
    submit-Stored settings call "t1" audio metadata part_path_apart (omega arith) before after "cv1"
      is_new_call accepts
