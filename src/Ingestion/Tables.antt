-- ===== src/Ingestion/Tables.antt =====
-- The tables of voclyp/store.py that an upload reads and writes: tenants, the consent log and the
-- idempotency keys, with the audio files of the vault. Encryption at rest is left out: what is read
-- from a path is what was written to it.
use voclyp_dev.Prelude.{
  ℕ, String, Bool, true, false, ◌&&◌, ◌||◌, Option, none, some, List, [], ◌∷◌, ◌++◌, if◌then◌else◌,
  leb, ◌==◌, length, is_some, str_eq, find, delete, insert, Text, codes,
}
use voclyp_dev.Prelude.Keys.{with_key}
use voclyp_dev.Queue.{JobQueue}

-- a row of `tenants`
pub record Tenant : Type 0 where
  pub tenant_id : String
  pub name : String
  pub industry : String
  pub region : String

-- a row of `consent_log`
pub record Consent : Type 0 where
  pub tenant_id : String
  pub conversation_id : String
  pub agent_id : String
  pub captured : Bool
  pub ts : ℕ

-- a row of `idempotency`
pub record Ref : Type 0 where
  pub tenant_id : String
  pub client_ref : String
  pub conversation_id : String

-- the audit entries of an upload, with the values that their texts print
pub data AuditCall : Type 0 where
  duplicate_upload_ignored : String → String → String → AuditCall
  ingested : String → String → String → String → ℕ → ℕ → AuditCall

pub record Intake : Type 0 where
  pub tenants : List Tenant
  pub consents : List Consent
  pub refs : List Ref
  pub files : List (String × Text)
  pub queue : JobQueue
  pub audits : List AuditCall

-- a lowercase letter or a digit
slug_char : ℕ → Bool
slug_char c = (leb b'a' c && leb c b'z') || (leb b'0' c && leb c b'9')

slug_chars : Text → Bool
slug_chars [] = true
slug_chars (c ∷ s) = (slug_char c || c == b'-') && slug_chars s

-- `_TENANT_SLUG.match`
is_slug : Text → Bool
unfolding slug_char slug_chars
is_slug [] = false
is_slug (c ∷ s) = slug_char c && slug_chars s && leb 1 (length s) && leb (length s) 62

-- `INSERT OR REPLACE`; `none` is the ValueError
pub create_tenant : Tenant → Intake → Option Intake
unfolding is_slug
create_tenant row s =
    if is_slug (codes row.tenant_id)
    then some (record s {
      tenants = delete (with_key Tenant.tenant_id row.tenant_id) s.tenants ++ row ∷ [];
    })
    else none

unfoldable pub tenant_industry : String → Intake → Option String
tenant_industry tenant_id s = elim (find (with_key Tenant.tenant_id tenant_id) s.tenants) [
  | none ↦ none
  | some row ↦ some row.industry
]

abbrev pub consent_of : String → String → Consent → Bool
consent_of tenant_id conversation_id c =
    str_eq c.tenant_id tenant_id && str_eq c.conversation_id conversation_id

-- `INSERT OR REPLACE`
unfoldable pub log_consent : ℕ → String → String → String → Bool → Intake → Intake
log_consent now tenant_id conversation_id agent_id captured s =
    let row : Consent = record {
      tenant_id = tenant_id;
      conversation_id = conversation_id;
      agent_id = agent_id;
      captured = captured;
      ts = now;
    } in
    record s { consents = delete (consent_of tenant_id conversation_id) s.consents ++ row ∷ [] }

abbrev pub ref_of : String → String → Ref → Bool
ref_of tenant_id client_ref r = str_eq r.tenant_id tenant_id && str_eq r.client_ref client_ref

unfoldable pub idempotency_get : String → String → Intake → Option String
idempotency_get tenant_id client_ref s = elim (find (ref_of tenant_id client_ref) s.refs) [
  | none ↦ none
  | some row ↦ some row.conversation_id
]

-- `INSERT OR IGNORE`
unfoldable pub idempotency_set : String → String → String → Intake → Intake
idempotency_set tenant_id client_ref conversation_id s =
    let row : Ref = record {
      tenant_id = tenant_id;
      client_ref = client_ref;
      conversation_id = conversation_id;
    } in
    if is_some (find (ref_of tenant_id client_ref) s.refs)
    then s
    else record s { refs = s.refs ++ row ∷ [] }

-- `vault.write`
abbrev pub write_file : String → Text → Intake → Intake
write_file path content s = record s { files = insert path content s.files }

abbrev pub log : AuditCall → Intake → Intake
log call s = record s { audits = s.audits ++ call ∷ [] }
