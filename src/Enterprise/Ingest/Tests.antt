-- ===== src/Enterprise/Ingest/Tests.antt =====
-- `EnterpriseIngestion.ingest` (voclyp/enterprise/ingestion.py) on one conversation.
use voclyp_dev.Prelude.{ℕ, ◌≡◌, refl, Bool, true, false, none, [], ◌∷◌, ◌++◌, Text}
use voclyp_dev.Enterprise.Conversations.{get_conversation}
use voclyp_dev.Enterprise.Consent.{Artifact, get_consent_log}
use voclyp_dev.Enterprise.Ingest.{raises_behind, put_done, Capture, Site, upload_failed, ingest}
use voclyp_dev.Enterprise.Ingest.Covered.{IsConsented, begun, ingested, Reach-IsConsented}
use voclyp_dev.Enterprise.Ingest.Failed.{Orphaned, ingest-failed}

abbrev sha256 : Text → Text
sha256 t = 97 ∷ t

abbrev dumps : Artifact → Text
dumps a = a.language ++ a.notice_text

abbrev iso : ℕ → Text
iso n = n ∷ []

abbrev isdigit : ℕ → Bool
isdigit c = false

abbrev capture : Capture
capture = record {
  tenant_id = "t1";
  agent_id = "a1";
  store_id = "s1";
  session_id = [];
  language = 104 ∷ 105 ∷ [];
  purposes = ("recording", true) ∷ [];
  device_fingerprint = [];
  notice_text = 63 ∷ [];
  audio = 1 ∷ 2 ∷ [];
  customer_phone = [];
  mock_transcript = none;
  extra_artifact = none;
}

abbrev empty : Site
empty = record { ledger = []; depot = record { schemas = []; objects = [] }; produced = [] }

no_consent : get_consent_log (116 ∷ 49 ∷ []) "k1" [] ≡ none
unfolding get_consent_log
no_consent = refl

no_conversation : get_conversation "c1" [] ≡ none
unfolding get_conversation
no_conversation = refl

abbrev stored : Site
stored = (ingest sha256 dumps iso isdigit 7200 put_done 0 "k1" "c1" 5 capture empty).1

Reach-IsConsented_example : IsConsented stored.ledger stored.depot
Reach-IsConsented_example =
    Reach-IsConsented sha256 dumps iso isdigit 7200
      (ingested put_done 0 "k1" "c1" 5 capture no_consent begun)

ingest-failed_example :
    (s' : Site) × (ingest sha256 dumps iso isdigit 7200 raises_behind 0 "k1" "c1" 5 capture empty
      ≡ (upload_failed, s'))
    × Orphaned sha256 dumps iso isdigit 7200 raises_behind "c1" 5 capture empty s'
ingest-failed_example =
    ingest-failed sha256 dumps iso isdigit 7200 raises_behind 0 "k1" "c1" 5 capture empty refl refl
      refl no_conversation
