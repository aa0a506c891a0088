-- ===== src/Enterprise/Ingest/Failed.antt =====
-- What `ingest` leaves behind when it does not go through (voclyp/enterprise/ingestion.py).
use voclyp_dev.Prelude.{
  ℕ, zero, suc, ◌<◌, String, ◌≡◌, refl, Bool, true, false, none, some, List, [], ◌∷◌, ◌++◌, arith,
  eq_iff, find, Text, text_eq,
}
use voclyp_dev.Prelude.Keys.{find-append_none}
use voclyp_dev.Enterprise.Conversations.{
  Conversation, Schemas, has_id, get_conversation, insert_conversation, is_orphan,
}
use voclyp_dev.Enterprise.Erasure.{remove}
use voclyp_dev.Enterprise.Consent.{Artifact, ConsentLog, toggle, recording_not_granted}
use voclyp_dev.Enterprise.Consent.Granted.{record_consent-accepts, record_consent-refuses}
use voclyp_dev.Enterprise.Ingest.{
  PutCall, raises_before, raises_behind, put_done, audio_key, Capture, Site, refused, upload_failed,
  notice_of, conversation_row, upload, after_consent, ingest,
}

get_conversation-insert :
    (place : ℕ) (row : Conversation) (s : Schemas)
    → get_conversation row.id s ≡ none
    → get_conversation row.id (insert_conversation place row s) ≡ some row
unfolding get_conversation insert_conversation
get_conversation-insert place row [] h = ground (arith, (eq_iff row.id row.id).1)
get_conversation-insert zero row (t ∷ s) h =
    let absent : find (has_id row.id) t ≡ none = ground arith in
    let found = find-append_none (has_id row.id) t row absent ((eq_iff row.id row.id).1 refl) in
    ground (arith, found)
get_conversation-insert (suc place) row (t ∷ s) h =
    ground (arith, get_conversation-insert place row s)

abbrev pub is_raise : PutCall → Bool
is_raise raises_before = true
is_raise raises_behind = true
is_raise put_done = false

-- the blob is written before the tag, and not where its own writing raises
abbrev pub left_objects : PutCall → String → List String → List String
left_objects raises_before key objects = objects
left_objects raises_behind key objects = key ∷ remove key objects
left_objects put_done key objects = key ∷ remove key objects

module _ (sha256 : Text → Text) (dumps : Artifact → Text) (iso : ℕ → Text) (isdigit : ℕ → Bool)
    (erase_after_seconds : ℕ) where
  -- Without a grant of recording, `ingest` answers with the consent error and changes nothing.
  pub ingest-refused :
      (call : PutCall) (place : ℕ) (consent_id id : String) (now : ℕ) (a : Capture) (s : Site)
      → toggle a.purposes "recording" ≡ false
      → ingest sha256 dumps iso isdigit erase_after_seconds call place consent_id id now a s
        ≡ (refused recording_not_granted, s)
  unfolding ingest after_consent
  ingest-refused call place consent_id id now a s refusal =
      rw
        (record_consent-refuses sha256 dumps iso isdigit consent_id now (notice_of a) s.ledger
          refusal)
        refl

  -- What an upload that was consented to leaves when the audio store raises: the topic is as it was,
  -- the blob is there if it was written before the raise, and the conversation stands in a row that
  -- each sweep whose cutoff is later than the call takes for an orphan.
  pub record Orphaned (call : PutCall) (id : String) (now : ℕ) (a : Capture) (s s' : Site)
      : Type 0 where
    pub row : Conversation
    pub stored : get_conversation id s'.depot.schemas ≡ some row
    pub swept : (cutoff : ℕ) → now < cutoff → is_orphan cutoff row ≡ true
    pub named : row.s3_key ≡ audio_key a.tenant_id id
    pub objects : s'.depot.objects ≡ left_objects call (audio_key a.tenant_id id) s.depot.objects
    pub produced : s'.produced ≡ s.produced

  -- When the audio store raises for an upload that was consented to in a notice whose language is
  -- named, under an id that is new, whether before the blob is written or behind it, `ingest` raises
  -- and leaves the topic as it was, the audio store with the blob exactly if that was written, and the
  -- conversation in a row that names the key of the blob and that each sweep whose cutoff is later
  -- than the call takes for an orphan.
  pub ingest-failed :
      (call : PutCall) (place : ℕ) (consent_id id : String) (now : ℕ) (a : Capture) (s : Site)
      → is_raise call ≡ true
      → toggle a.purposes "recording" ≡ true
      → text_eq a.language [] ≡ false
      → get_conversation id s.depot.schemas ≡ none
      → (s' : Site) × (ingest sha256 dumps iso isdigit erase_after_seconds call place consent_id id
            now a s
          ≡ (upload_failed, s'))
        × Orphaned call id now a s s'
  unfolding ingest after_consent upload conversation_row
  ingest-failed call place consent_id id now a s bad recording named fresh =
      let (r, accepted) =
        record_consent-accepts sha256 dumps iso isdigit consent_id now (notice_of a) s.ledger
          recording named in
      let row = conversation_row sha256 dumps iso isdigit erase_after_seconds id now a r in
      let s' : Site = record s {
        ledger = s.ledger ++ r ∷ [];
        depot = record {
          schemas = insert_conversation place row s.depot.schemas;
          objects = left_objects call row.s3_key s.depot.objects;
        };
      } in
      (
        s',
        rw accepted (raised call bad r row _),
        record {
          row = row;
          stored = get_conversation-insert place row s.depot.schemas fresh;
          swept = λ cutoff late. ground arith;
          named = refl;
          objects = refl;
          produced = refl;
        },
      )
    where
      raised :
          (call : PutCall)
          → is_raise call ≡ true
          → (r : ConsentLog) (row : Conversation) (t : Site)
          → upload sha256 dumps iso isdigit erase_after_seconds call now a r row t ≡ (
            upload_failed,
            record t {
              depot = record {
                schemas = t.depot.schemas;
                objects = left_objects call row.s3_key t.depot.objects;
              };
            },
          )
      raised raises_before h r row t = refl
      raised raises_behind h r row t = refl
      raised put_done h r row t = cc h
