-- ===== src/Enterprise/Consent/Granted.antt =====
-- What a consent that `ConsentService.record` accepts grants (voclyp/enterprise/consent/service.py).
use voclyp_dev.Prelude.{
  ℕ, String, ◌≡◌, refl, sym, ◌∙◌, Bool, Bool-cases, inl, inr, true, false, none, some, [], ◌∷◌,
  ◌++◌, if◌then◌else◌, arith, is_some, eq_iff, Text, text_eq, text_eq_refl, lookup, insert,
  lookup-insert, map,
}
use voclyp_dev.Prelude.Keys.{find-append_some, find-append_none}
use voclyp_dev.Enterprise.Consent.{
  Purposes, known_purposes, toggle, carry, normalize_purposes, Artifact, ConsentLog, Notice, Ledger,
  get_consent_log, insert_consent_log, Recorded, consented, consent_error, consent_row,
  last_consent_entry_hash, prepare, record_consent, ConsentError, recording_not_granted,
  language_required,
}

-- The dict `out`, and what it lacks of `purposes`.
lookup-carry :
    (k : String) (purposes out : Purposes)
    → lookup k (carry purposes out)
      ≡ (if is_some (lookup k out) then lookup k out else lookup k purposes)
lookup-carry k [] out = ground arith
lookup-carry k ((j, b) ∷ purposes) out = elim (Bool-cases (is_some (lookup j out))) [
  | inl known ↦ ground (arith, lookup-carry k purposes out, eq_iff j k)
  | inr new ↦
      ground (arith, lookup-carry k purposes (insert j b out), lookup-insert j k b out, eq_iff j k)
]

-- Normalizing the purposes changes the truth of no toggle.
pub toggle-normalize_purposes :
    (k : String) (purposes : Purposes) → toggle (normalize_purposes purposes) k ≡ toggle purposes k
unfolding normalize_purposes
toggle-normalize_purposes k purposes = ground (
  arith,
  lookup-carry k purposes (map (λ k. (k, toggle purposes k)) known_purposes),
  eq_iff "recording" k,
  eq_iff "whatsapp_followup" k,
  eq_iff "crm_storage" k,
  eq_iff "marketing" k,
)

pub get_consent_log-kept :
    (t : Text) (id : String) (ledger : Ledger) (r s : ConsentLog)
    → get_consent_log t id ledger ≡ some s
    → get_consent_log t id (ledger ++ r ∷ []) ≡ some s
unfolding get_consent_log
get_consent_log-kept t id ledger r s h = find-append_some _ ledger r s h

module _ (sha256 : Text → Text) (dumps : Artifact → Text) (iso : ℕ → Text)
    (isdigit : ℕ → Bool) where
  -- What `record` did: it refused and wrote nothing, or it appended a row of the tenant, under the
  -- new id, to which recording was granted.
  pub data Did (id : String) (n : Notice) (ledger : Ledger) : Recorded × Ledger → Type 0 where
    refused : (e : ConsentError) → Did id n ledger (consent_error e, ledger)
    granted :
        (r : ConsentLog)
        → toggle n.purposes "recording" ≡ true
        → toggle r.purposes "recording" ≡ true
        → (get_consent_log n.tenant_id id ledger ≡ none
            → get_consent_log n.tenant_id r.id (ledger ++ r ∷ []) ≡ some r)
        → Did id n ledger (consented r, ledger ++ r ∷ [])

  stored :
      (id : String) (now : ℕ) (n : Notice) (ledger : Ledger) (prev : Text)
      → get_consent_log n.tenant_id id ledger ≡ none
      → get_consent_log n.tenant_id id
          (ledger ++ consent_row sha256 dumps iso isdigit id now prev n ∷ [])
        ≡ some (consent_row sha256 dumps iso isdigit id now prev n)
  unfolding get_consent_log consent_row
  stored id now n ledger prev fresh =
      find-append_none _ ledger _ fresh (rw (text_eq_refl n.tenant_id, (eq_iff id id).1 refl) refl)

  pub record_consent-Did :
      (id : String) (now : ℕ) (n : Notice) (ledger : Ledger)
      → Did id n ledger (record_consent sha256 dumps iso isdigit id now n ledger)
  unfolding record_consent prepare insert_consent_log consent_row
  record_consent-Did id now n ledger =
      elim (Bool-cases (toggle (normalize_purposes n.purposes) "recording")) [
        | inr no_recording ↦
            rw (record_consent, prepare, no_recording) (refused recording_not_granted)
        | inl recording ↦ elim (Bool-cases (text_eq n.language [])) [
          | inl empty ↦ rw (record_consent, prepare, recording, empty) (refused language_required)
          | inr named ↦
              rw (record_consent, prepare, recording, named)
                (granted _ (sym (toggle-normalize_purposes "recording" n.purposes) ∙ recording)
                  recording (stored id now n ledger _))
        ]
      ]

  -- Where recording is granted and the notice has a language, `record` accepts.
  pub record_consent-accepts :
      (id : String) (now : ℕ) (n : Notice) (ledger : Ledger)
      → toggle n.purposes "recording" ≡ true
      → text_eq n.language [] ≡ false
      → (r : ConsentLog) × (record_consent sha256 dumps iso isdigit id now n ledger
          ≡ (consented r, ledger ++ r ∷ []))
  unfolding record_consent prepare insert_consent_log
  record_consent-accepts id now n ledger recording named =
      let asked = toggle-normalize_purposes "recording" n.purposes ∙ recording in
      let prev = last_consent_entry_hash n.tenant_id ledger in
      (
        consent_row sha256 dumps iso isdigit id now prev n,
        rw (record_consent, prepare, asked, named) refl,
      )

  -- Where recording is not granted, `record` raises and writes nothing.
  pub record_consent-refuses :
      (id : String) (now : ℕ) (n : Notice) (ledger : Ledger)
      → toggle n.purposes "recording" ≡ false
      → record_consent sha256 dumps iso isdigit id now n ledger
        ≡ (consent_error recording_not_granted, ledger)
  unfolding record_consent prepare
  record_consent-refuses id now n ledger refusal =
      let asked = toggle-normalize_purposes "recording" n.purposes ∙ refusal in
      rw (record_consent, prepare, asked) refl
