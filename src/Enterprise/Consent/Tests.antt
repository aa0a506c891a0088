-- ===== src/Enterprise/Consent/Tests.antt =====
-- The consent ledger (voclyp/enterprise/consent/service.py) on two consents of one tenant.
use voclyp_dev.Prelude.{
  ℕ, ◌≡◌, ◌⊎◌, refl, Bool, true, false, ◌&&◌, leb, none, some, [], ◌∷◌, ◌++◌, arith, Text,
}
use voclyp_dev.Security.HashChain.{Collision}
use voclyp_dev.Enterprise.Consent.{
  Purposes, normalize_purposes, Artifact, ConsentLog, Notice, Ledger, consented, consent_error,
  recording_not_granted, last_consent_entry_hash, insert_consent_log, hash_phone, consent_row,
  prepare, record_consent, verify_from, verify_consent_chain,
}
use voclyp_dev.Enterprise.Consent.Chain.{
  IsRecorded, begun, recorded, IsRecorded-verify_consent_chain,
}
use voclyp_dev.Enterprise.Consent.Race.{insert-fork}

abbrev sha256 : Text → Text
sha256 t = 97 ∷ t

abbrev dumps : Artifact → Text
dumps a = a.language ++ a.notice_text

abbrev iso : ℕ → Text
iso n = n ∷ []

abbrev isdigit : ℕ → Bool
isdigit c = leb 48 c && leb c 57

abbrev purposes : Purposes
purposes = ("recording", true) ∷ ("newsletter", true) ∷ []

abbrev notice : Notice
notice = record {
  tenant_id = 116 ∷ [];
  agent_id = 97 ∷ [];
  session_id = 115 ∷ [];
  language = 104 ∷ 105 ∷ [];
  purposes = purposes;
  device_fingerprint = [];
  notice_text = 63 ∷ [];
  customer_phone = 43 ∷ 32 ∷ 57 ∷ [];
  extra_artifact = none;
}

abbrev refusing : Notice
refusing = record notice { purposes = ("marketing", true) ∷ [] }

normalized :
    normalize_purposes purposes
    ≡ ("recording", true)
      ∷ ("whatsapp_followup", false)
      ∷ ("crm_storage", false)
      ∷ ("marketing", false)
      ∷ ("newsletter", true)
      ∷ []
unfolding normalize_purposes
normalized = refl

phone : hash_phone sha256 dumps iso isdigit (43 ∷ 32 ∷ 57 ∷ []) ≡ 97 ∷ 43 ∷ 57 ∷ []
unfolding hash_phone
phone = refl

not_granted :
    record_consent sha256 dumps iso isdigit "k1" 5 refusing []
    ≡ (consent_error recording_not_granted, [])
unfolding record_consent prepare normalize_purposes
not_granted = refl

abbrev one : Ledger
one = (record_consent sha256 dumps iso isdigit "k1" 5 notice []).1

written :
    IsRecorded sha256 dumps iso isdigit 7
      (record_consent sha256 dumps iso isdigit "k2" 7 notice one).1
written = recorded "k2" 5 7 notice (recorded "k1" 5 5 notice (begun 5) (omega arith)) (omega arith)

IsRecorded-verify_consent_chain_example :
    verify_consent_chain sha256 dumps iso isdigit notice.tenant_id
      (record_consent sha256 dumps iso isdigit "k2" 7 notice one).1
    ≡ none
IsRecorded-verify_consent_chain_example =
    IsRecorded-verify_consent_chain sha256 dumps iso isdigit written notice.tenant_id

abbrev row : ConsentLog
row =
    consent_row sha256 dumps iso isdigit "k1" 5 (last_consent_entry_hash notice.tenant_id []) notice

abbrev row' : ConsentLog
row' =
    consent_row sha256 dumps iso isdigit "k2" 5 (last_consent_entry_hash notice.tenant_id []) notice

prepared : prepare sha256 dumps iso isdigit "k1" 5 notice [] ≡ consented row
unfolding prepare normalize_purposes
prepared = refl

prepared' : prepare sha256 dumps iso isdigit "k2" 5 notice [] ≡ consented row'
unfolding prepare normalize_purposes
prepared' = refl

empty-verifies : verify_consent_chain sha256 dumps iso isdigit notice.tenant_id [] ≡ none
unfolding verify_consent_chain verify_from
empty-verifies = refl

insert-fork_example :
    (verify_consent_chain sha256 dumps iso isdigit notice.tenant_id
        (insert_consent_log row' (insert_consent_log row []))
      ≡ some row'.id)
    ⊎ (row.entry_hash ≡ last_consent_entry_hash notice.tenant_id [])
    ⊎ Collision sha256
insert-fork_example =
    insert-fork sha256 dumps iso isdigit "k1" "k2" 5 5 notice notice [] refl (omega arith) tt
      empty-verifies prepared prepared'
