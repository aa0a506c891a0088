-- ===== src/Enterprise/Ingest/Covered.antt =====
-- No audio without consent: what `ingest`, the state changes of the workers, the erasure worker and
-- the orphan sweep keep (voclyp/enterprise/ingestion.py, store.py, erasure).
use voclyp_dev.Prelude.{
  ℕ, String, ◌≡◌, refl, ◌∙◌, Bool, Option-cases, inl, inr, true, false, ◌&&◌, Option, none, some,
  [], ◌∷◌, ◌++◌, arith, All-weaken, All-delete, str_eq, eq_iff, Text, codes,
}
use voclyp_dev.Enterprise.States.{State, audio_uploaded}
use voclyp_dev.Enterprise.Conversations.{
  Conversation, Schemas, updated, set_state, insert_conversation,
}
use voclyp_dev.Enterprise.Conversations.Columns.{
  Outcome-cases, Same, IsSteady, any_row, any_row-kept, any_row-new, any_row-weaken,
}
use voclyp_dev.Enterprise.Consent.{Artifact, ConsentLog, Ledger, Recorded, toggle, get_consent_log}
use voclyp_dev.Enterprise.Consent.Granted.{
  Did, refused, granted, record_consent-Did, get_consent_log-kept,
}
use voclyp_dev.Enterprise.Erasure.{Depot, run_once, sweep_local}
use voclyp_dev.Enterprise.Erasure.Columns.{
  IsCovered, set_state-covers, run_once-covers, sweep_local-covers,
}
use voclyp_dev.Enterprise.Ingest.{
  PutCall, raises_before, raises_behind, put_done, with_blob, uploaded, Capture, Site, notice_of,
  conversation_row, upload, after_consent, ingest,
}

abbrev grants : Option ConsentLog → Bool
grants none = false
grants (some r) = toggle r.purposes "recording"

-- The conversation's audio has the key, and the ledger holds the consent that the conversation
-- names, of its tenant, with recording granted.
abbrev pub has_consent : Ledger → String → Conversation → Bool
has_consent ledger key c =
    str_eq c.s3_key key && grants (get_consent_log (codes c.tenant_id) c.consent_log_id ledger)

pub has_consent-IsSteady : (ledger : Ledger) (key : String) → IsSteady (has_consent ledger key)
has_consent-IsSteady ledger key c d h = rw (h.0, h.1, h.2) refl

-- Each audio object belongs to a conversation whose consent to be recorded is on the ledger.
abbrev pub IsConsented : Ledger → Depot → Type 0
IsConsented ledger d = IsCovered (has_consent ledger) (has_consent-IsSteady ledger) d

grants-kept :
    (t : Text) (id : String) (ledger : Ledger) (r : ConsentLog)
    → grants (get_consent_log t id ledger) ≡ true
    → grants (get_consent_log t id (ledger ++ r ∷ [])) ≡ true
grants-kept t id ledger r h = elim (Option-cases (get_consent_log t id ledger)) [
  | inl absent ↦ absurd (ground (arith, absent))
  | inr (s, present) ↦ rw (get_consent_log-kept t id ledger r s present) (ground (arith, present))
]

has_consent-kept :
    (ledger : Ledger) (r : ConsentLog) (key : String) (c : Conversation)
    → has_consent ledger key c ≡ true
    → has_consent (ledger ++ r ∷ []) key c ≡ true
has_consent-kept ledger r key c h =
    ground (arith, grants-kept (codes c.tenant_id) c.consent_log_id ledger r)

-- Another consent and another conversation take no object's consent away.
more :
    (ledger : Ledger) (r : ConsentLog) (place : ℕ) (row : Conversation) (d : Depot)
    → IsConsented ledger d
    → IsConsented
        (ledger ++ r ∷ [])
        (record { schemas = insert_conversation place row d.schemas; objects = d.objects })
more ledger r place row d h =
    All-weaken d.objects
      (λ key e. any_row-kept (has_consent (ledger ++ r ∷ []) key) place row d.schemas (
        any_row-weaken (has_consent ledger key) (has_consent (ledger ++ r ∷ []) key)
          (has_consent-kept ledger r key) d.schemas e))
      h

module _ (sha256 : Text → Text) (dumps : Artifact → Text) (iso : ℕ → Text) (isdigit : ℕ → Bool)
    (erase_after_seconds : ℕ) where
  abbrev row_of : String → ℕ → Capture → ConsentLog → Conversation
  row_of id now a r = conversation_row sha256 dumps iso isdigit erase_after_seconds id now a r

  with_blob-covers :
      (row : Conversation) (s : Site)
      → any_row (has_consent s.ledger row.s3_key) s.depot.schemas ≡ true
      → IsConsented s.ledger s.depot
      → IsConsented s.ledger (with_blob row s).depot
  with_blob-covers row s known h =
      (known, All-delete _ (λ k. str_eq k row.s3_key) s.depot.objects h)

  uploaded-covers :
      (now : ℕ) (a : Capture) (r : ConsentLog) (row : Conversation) (s : Site)
      → IsConsented s.ledger s.depot
      → IsConsented
          (uploaded sha256 dumps iso isdigit erase_after_seconds now a r row s).1.ledger
          (uploaded sha256 dumps iso isdigit erase_after_seconds now a r row s).1.depot
  unfolding uploaded
  uploaded-covers now a r row s h =
      elim (Outcome-cases (set_state now row.id audio_uploaded (λ c. c) s.depot.schemas)) [
        | inr illegal ↦ rw (uploaded, illegal) h
        | inl (schemas, moved) ↦
            rw (uploaded, moved)
              (All-weaken s.depot.objects
                (λ key e.
                  set_state-covers (has_consent s.ledger) (has_consent-IsSteady s.ledger) now row.id
                    audio_uploaded (λ c. c) (λ c. (refl, refl, refl)) s.depot.schemas schemas moved
                    key
                  ∙ e)
                h)
      ]

  -- An upload of a conversation whose row is inserted and whose consent is on the ledger.
  upload-covers :
      (call : PutCall) (now : ℕ) (a : Capture) (r : ConsentLog) (row : Conversation) (s : Site)
      → any_row (has_consent s.ledger row.s3_key) s.depot.schemas ≡ true
      → IsConsented s.ledger s.depot
      → IsConsented
          (upload sha256 dumps iso isdigit erase_after_seconds call now a r row s).1.ledger
          (upload sha256 dumps iso isdigit erase_after_seconds call now a r row s).1.depot
  unfolding upload
  upload-covers raises_before now a r row s known h = h
  upload-covers raises_behind now a r row s known h = with_blob-covers row s known h
  upload-covers put_done now a r row s known h =
      uploaded-covers now a r row (with_blob row s) (with_blob-covers row s known h)

  new_row :
      (id : String) (now : ℕ) (a : Capture) (r : ConsentLog) (ledger : Ledger)
      → get_consent_log (codes a.tenant_id) r.id ledger ≡ some r
      → toggle r.purposes "recording" ≡ true
      → has_consent ledger (row_of id now a r).s3_key (row_of id now a r) ≡ true
  unfolding conversation_row
  new_row id now a r ledger stored grant =
      let row = row_of id now a r in rw ((eq_iff row.s3_key row.s3_key).1 refl, stored, grant) refl

  after_consent-covers :
      (call : PutCall) (place : ℕ) (consent_id id : String) (now : ℕ) (a : Capture) (s : Site)
      (result : Recorded × Ledger)
      → get_consent_log (codes a.tenant_id) consent_id s.ledger ≡ none
      → IsConsented s.ledger s.depot
      → Did sha256 dumps iso isdigit consent_id (notice_of a) s.ledger result
      → (let (reply, s') =
            after_consent sha256 dumps iso isdigit erase_after_seconds call place id now a s
              result in
          IsConsented s'.ledger s'.depot)
  unfolding after_consent
  after_consent-covers call place consent_id id now a s _ fresh h (refused e) = h
  after_consent-covers call place consent_id id now a s _ fresh h (granted r asked grant stored) =
      let row = row_of id now a r in
      let ledger = s.ledger ++ r ∷ [] in
      let schemas = insert_conversation place row s.depot.schemas in
      upload-covers call now a r row
        (record s {
          ledger = ledger;
          depot = record { schemas = schemas; objects = s.depot.objects };
        })
        (any_row-new (has_consent ledger row.s3_key) place row s.depot.schemas
          (new_row id now a r ledger (stored fresh) grant))
        (more s.ledger r place row s.depot h)

  -- `ingest` under a consent id that the tenant does not have yet keeps it, whatever it answers.
  ingest-covers :
      (call : PutCall) (place : ℕ) (consent_id id : String) (now : ℕ) (a : Capture) (s : Site)
      → get_consent_log (codes a.tenant_id) consent_id s.ledger ≡ none
      → IsConsented s.ledger s.depot
      → (let (reply, s') =
            ingest sha256 dumps iso isdigit erase_after_seconds call place consent_id id now a s in
          IsConsented s'.ledger s'.depot)
  unfolding ingest
  ingest-covers call place consent_id id now a s fresh h =
      after_consent-covers call place consent_id id now a s _ fresh h
        (record_consent-Did sha256 dumps iso isdigit consent_id now (notice_of a) s.ledger)

  -- What comes of an empty store by ingesting under new consent ids, by changes of a
  -- conversation's state and other columns, by runs of the erasure worker and by sweeps.
  pub data Reach : Site → Type 0 where
    begun :
        Reach (record { ledger = []; depot = record { schemas = []; objects = [] }; produced = [] })
    ingested :
        (call : PutCall) (place : ℕ) (consent_id id : String) (now : ℕ) (a : Capture) {s : Site}
        → get_consent_log (codes a.tenant_id) consent_id s.ledger ≡ none
        → Reach s
        → Reach
            (ingest sha256 dumps iso isdigit erase_after_seconds call place consent_id id now a s).1
    changed :
        (now : ℕ) (id : String) (state : State) (fields : Conversation → Conversation)
        (schemas : Schemas) {s : Site}
        → ((c : Conversation) → Same c (fields c))
        → set_state now id state fields s.depot.schemas ≡ updated schemas
        → Reach s
        → Reach (record s { depot = record { schemas = schemas; objects = s.depot.objects } })
    erased :
        (raises : String → Bool) (now limit : ℕ) {s : Site}
        → Reach s
        → Reach (record s { depot = (run_once raises now limit s.depot).0 })
    swept :
        (raises : String → Bool) (now cutoff : ℕ) (d : Depot) {s : Site}
        → sweep_local raises now cutoff s.depot ≡ some d
        → Reach s
        → Reach (record s { depot = d })

  -- Whatever was ingested, refused, failed, changed, erased and swept, each audio object that is
  -- stored is the audio of a conversation whose tenant's ledger holds the consent that it names,
  -- with recording granted.
  pub Reach-IsConsented : {s : Site} → Reach s → IsConsented s.ledger s.depot
  Reach-IsConsented begun = tt
  Reach-IsConsented (ingested call place consent_id id now a {s} fresh r) =
      ingest-covers call place consent_id id now a s fresh (Reach-IsConsented r)
  Reach-IsConsented (changed now id state fields schemas {s} same e r) =
      All-weaken s.depot.objects
        (λ key k.
          set_state-covers (has_consent s.ledger) (has_consent-IsSteady s.ledger) now id state
            fields same s.depot.schemas schemas e key
          ∙ k)
        (Reach-IsConsented r)
  Reach-IsConsented (erased raises now limit {s} r) =
      run_once-covers (has_consent s.ledger) (has_consent-IsSteady s.ledger) raises now limit
        s.depot (Reach-IsConsented r)
  Reach-IsConsented (swept raises now cutoff d {s} e r) =
      sweep_local-covers (has_consent s.ledger) (has_consent-IsSteady s.ledger) raises now cutoff
        s.depot d e (Reach-IsConsented r)
