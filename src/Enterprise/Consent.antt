-- ===== src/Enterprise/Consent.antt =====
-- The consent ledger: voclyp/enterprise/consent/service.py, and the table `immutable_consent_logs`
-- of `LocalStore` (voclyp/enterprise/store.py). A ledger is the table of one schema file, its rows
-- in order of their row ids. Clock times are numbers in the order of their ISO texts, `iso` writes
-- one down. SHA-256, `json.dumps` of the canonical artifact and `str.isdigit` are arguments.
mod Tests
pub mod Granted
pub mod Chain
pub mod Race
use voclyp_dev.Prelude.{
  ℕ, String, Bool, true, false, not, ◌&&◌, ◌||◌, ◌==◌, Option, none, some, List, [], ◌∷◌, ◌++◌,
  if◌then◌else◌, is_some, str_eq, Text, text_eq, lookup, insert, find, select, order_by, map,
}
use voclyp_dev.Security.HashChain.{chain_hash}
use voclyp_dev.Audit.{genesis}

-- a dict of toggles
abbrev pub Purposes : Type 0
Purposes = List (String × Bool)

-- `KNOWN_PURPOSES`
abbrev pub known_purposes : List String
known_purposes = "recording" ∷ "whatsapp_followup" ∷ "crm_storage" ∷ "marketing" ∷ []

-- `bool(purposes.get(key, False))`
abbrev pub toggle : Purposes → String → Bool
toggle purposes k = elim (lookup k purposes) [ none ↦ false | some b ↦ b ]

-- the loop that carries the other toggles through
abbrev carry : Purposes → Purposes → Purposes
carry [] out = out
carry ((k, b) ∷ purposes) out =
    carry purposes (if is_some (lookup k out) then out else insert k b out)

-- The truth values stand for the toggles' values.
pub normalize_purposes : Purposes → Purposes
normalize_purposes purposes = carry purposes (map (λ k. (k, toggle purposes k)) known_purposes)

-- the artifact that is made canonical and hashed
pub record Artifact : Type 0 where
  pub notice_text : Text
  pub language : Text
  pub purposes : Purposes
  pub device_fingerprint : Text
  pub captured_at : ℕ
  pub extra : Option Text

-- a row of `immutable_consent_logs`
pub record ConsentLog : Type 0 where
  pub id : String
  pub tenant_id : Text
  pub agent_id : Text
  pub session_id : Text
  pub customer_phone_hash : Text
  pub language : Text
  pub purposes : Purposes
  pub device_fingerprint : Text
  pub consent_artifact : Artifact
  pub artifact_sha256 : Text
  pub prev_hash : Text
  pub entry_hash : Text
  pub captured_at : ℕ

-- the arguments of `record`
pub record Notice : Type 0 where
  pub tenant_id : Text
  pub agent_id : Text
  pub session_id : Text
  pub language : Text
  pub purposes : Purposes
  pub device_fingerprint : Text
  pub notice_text : Text
  pub customer_phone : Text
  pub extra_artifact : Option Text

abbrev pub Ledger : Type 0
Ledger = List ConsentLog

abbrev pub of_tenant : Text → ConsentLog → Bool
of_tenant tenant_id r = text_eq r.tenant_id tenant_id

-- the rows of a tenant, ORDER BY captured_at, rowid
abbrev pub rows_of : Text → Ledger → Ledger
rows_of tenant_id ledger = order_by ConsentLog.captured_at (select (of_tenant tenant_id) ledger)

abbrev pub newest : Ledger → Option ConsentLog
newest [] = none
newest (r ∷ rows) = elim (newest rows) [ none ↦ some r | some s ↦ some s ]

-- `row["entry_hash"] if row else GENESIS`
abbrev pub hash_or_genesis : Option ConsentLog → Text
hash_or_genesis none = genesis
hash_or_genesis (some r) = r.entry_hash

-- `last_consent_entry_hash(tenant_id)`: ORDER BY captured_at DESC, rowid DESC LIMIT 1
pub last_consent_entry_hash : Text → Ledger → Text
last_consent_entry_hash tenant_id ledger = hash_or_genesis (newest (rows_of tenant_id ledger))

unfoldable pub insert_consent_log : ConsentLog → Ledger → Ledger
insert_consent_log row ledger = ledger ++ row ∷ []

-- `get_consent_log(tenant_id, consent_id)`
unfoldable pub get_consent_log : Text → String → Ledger → Option ConsentLog
get_consent_log tenant_id consent_id ledger =
    find (λ r. of_tenant tenant_id r && str_eq r.id consent_id) ledger

-- why `record` raises ConsentError
pub data ConsentError : Type 0 where
  recording_not_granted language_required : ConsentError

pub data Recorded : Type 0 where
  consented : ConsentLog → Recorded
  consent_error : ConsentError → Recorded

module _ (sha256 : Text → Text) (dumps : Artifact → Text) (iso : ℕ → Text)
    (isdigit : ℕ → Bool) where
  -- `"".join(ch for ch in phone if ch.isdigit() or ch == "+")`
  abbrev digits : Text → Text
  digits phone = select (λ c. isdigit c || (c == 43)) phone

  pub hash_phone : Text → Text
  hash_phone phone = elim (digits phone) [ [] ↦ [] | c ∷ cleaned ↦ sha256 (c ∷ cleaned) ]

  abbrev artifact_of : ℕ → Notice → Artifact
  artifact_of now n = record {
    notice_text = n.notice_text;
    language = n.language;
    purposes = normalize_purposes n.purposes;
    device_fingerprint = n.device_fingerprint;
    captured_at = now;
    extra = n.extra_artifact;
  }

  -- the row that is inserted, once the previous hash is read
  pub consent_row : String → ℕ → Text → Notice → ConsentLog
  unfolding hash_phone
  consent_row id now prev_hash n =
      let artifact_sha256 = sha256 (dumps (artifact_of now n)) in
      record {
        id = id;
        tenant_id = n.tenant_id;
        agent_id = n.agent_id;
        session_id = n.session_id;
        customer_phone_hash = hash_phone n.customer_phone;
        language = n.language;
        purposes = normalize_purposes n.purposes;
        device_fingerprint = n.device_fingerprint;
        consent_artifact = artifact_of now n;
        artifact_sha256 = artifact_sha256;
        prev_hash = prev_hash;
        entry_hash =
            chain_hash sha256 prev_hash
              (n.tenant_id ∷ n.session_id ∷ artifact_sha256 ∷ iso now ∷ []);
        captured_at = now;
      }

  -- `ConsentService.record` up to the insertion; the ledger is the one that it reads. The read and
  -- the insertion take the store's lock one after the other.
  pub prepare : String → ℕ → Notice → Ledger → Recorded
  unfolding normalize_purposes
  prepare id now n ledger =
      if not (toggle (normalize_purposes n.purposes) "recording")
      then consent_error recording_not_granted
      else if text_eq n.language []
      then consent_error language_required
      else consented (consent_row id now (last_consent_entry_hash n.tenant_id ledger) n)

  -- `ConsentService.record` where no other call comes between its read and its insertion
  pub record_consent : String → ℕ → Notice → Ledger → Recorded × Ledger
  unfolding insert_consent_log
  record_consent id now n ledger = elim (prepare id now n ledger) [
    | consent_error e ↦ (consent_error e, ledger)
    | consented row ↦ (consented row, insert_consent_log row ledger)
  ]

  -- the loop of `verify_consent_chain`; `some id` is the first bad row
  pub verify_from : Text → Ledger → Option String
  verify_from prev [] = none
  verify_from prev (r ∷ rows) =
      let rest = verify_from r.entry_hash rows in
      let expected =
        chain_hash sha256 prev
          (r.tenant_id ∷ r.session_id ∷ r.artifact_sha256 ∷ iso r.captured_at ∷ []) in
      if text_eq expected r.entry_hash then rest else some r.id

  -- `(True, None)` is `none`, `(False, id)` is `some id`
  pub verify_consent_chain : Text → Ledger → Option String
  verify_consent_chain tenant_id ledger = verify_from genesis (rows_of tenant_id ledger)
