-- ===== src/Audit.antt =====
-- The audit log of voclyp/store.py: `audit` and `verify_audit_chain`, hash-chained per tenant. The
-- table is a list of rows in order of their AUTOINCREMENT ids; an append runs under the store's
-- lock, so it is one step. The clock's reading `ts` is an argument.
mod Tests
pub mod Chain
pub mod Exports
use voclyp_dev.Prelude.{
  ℕ, ◌+◌, Bool, true, false, not, ◌||◌, Option, none, some, List, [], ◌∷◌, ◌++◌, if◌then◌else◌,
  find_last, select, Text, text_eq,
}
use voclyp_dev.Security.HashChain.{chain_hash}

-- a row of `audit_log`
pub record Entry : Type 0 where
  pub id : ℕ
  pub tenant_id : Text
  pub conversation_id : Option Text
  pub event : Text
  pub detail : Text
  pub ts : Text
  pub prev_hash : Text
  pub entry_hash : Text

pub record AuditLog : Type 0 where
  pub entries : List Entry
  pub last_id : ℕ

abbrev pub init : AuditLog
init = record { entries = []; last_id = 0 }

-- `"0" * 64`
abbrev zeros : ℕ → Text
zeros ℕ.zero = []
zeros (ℕ.suc n) = 48 ∷ zeros n

pub genesis : Text
genesis = zeros 64

-- `conversation_id or ""`
abbrev pub or_empty : Option Text → Text
or_empty none = []
or_empty (some t) = t

-- the fields of an entry that its hash covers
abbrev pub fields : Text → Option Text → Text → Text → Text → List Text
fields tenant_id conversation_id event detail ts =
    tenant_id ∷ or_empty conversation_id ∷ event ∷ detail ∷ ts ∷ []

abbrev of_tenant : Text → Entry → Bool
of_tenant tenant_id e = text_eq e.tenant_id tenant_id

abbrev hash_or_genesis : Option Entry → Text
hash_or_genesis none = genesis
hash_or_genesis (some e) = e.entry_hash

-- the hash that the tenant's next entry is chained to
pub last_hash : Text → AuditLog → Text
last_hash tenant_id log = hash_or_genesis (find_last (of_tenant tenant_id) log.entries)

module _ (sha256 : Text → Text) where
  pub audit : Text → Text → Option Text → Text → Text → AuditLog → AuditLog
  unfolding last_hash
  audit ts tenant_id conversation_id event detail log =
      let prev_hash = last_hash tenant_id log in
      let row : Entry = record {
        id = log.last_id + 1;
        tenant_id = tenant_id;
        conversation_id = conversation_id;
        event = event;
        detail = detail;
        ts = ts;
        prev_hash = prev_hash;
        entry_hash = chain_hash sha256 prev_hash (fields tenant_id conversation_id event detail ts);
      } in
      record { entries = log.entries ++ row ∷ []; last_id = log.last_id + 1 }

  -- the loop of `verify_audit_chain`; `some id` is the first bad entry
  pub verify_from : Text → Text → List Entry → Option ℕ
  verify_from tenant_id prev [] = none
  verify_from tenant_id prev (e ∷ rows) =
      let rest = verify_from tenant_id e.entry_hash rows in
      let expected =
        chain_hash sha256 prev (fields tenant_id e.conversation_id e.event e.detail e.ts) in
      if not (text_eq e.prev_hash prev) || not (text_eq e.entry_hash expected)
      then some e.id
      else rest

  -- `(True, None)` is `none`, `(False, id)` is `some id`
  pub verify_audit_chain : Text → AuditLog → Option ℕ
  verify_audit_chain tenant_id log =
      verify_from tenant_id genesis (select (of_tenant tenant_id) log.entries)
