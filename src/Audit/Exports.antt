-- ===== src/Audit/Exports.antt =====
-- What is read from the audit log (voclyp/store.py): `audit_export` and `latest_audit_detail`.
use voclyp_dev.Prelude.{
  ◌≡◌, refl, ap, ◌∙◌, Bool, true, false, ◌&&◌, Option, none, some, List, [], ◌∷◌, ◌++◌, map,
  if◌then◌else◌, find_last, find_last-append, select, select-append, Text, text_eq,
}
use mathlib.Core.List.{map-append}
use voclyp_dev.Audit.{Entry, AuditLog, audit, last_hash, fields}
use voclyp_dev.Security.HashChain.{chain_hash}

-- an entry of the export
pub record Line : Type 0 where
  pub conversation_id : Option Text
  pub event : Text
  pub detail : Text
  pub ts : Text
  pub entry_hash : Text

-- `conversation_id=?`, which a NULL does not meet
abbrev is_for : Text → Option Text → Bool
is_for c none = false
is_for c (some d) = text_eq d c

abbrev of_conversation : Text → Entry → Bool
of_conversation c e = is_for c e.conversation_id

-- the optional condition; an empty conversation id is falsy
abbrev wanted : Option Text → Entry → Bool
wanted none e = true
wanted (some []) e = true
wanted (some (x ∷ c)) e = of_conversation (x ∷ c) e

abbrev exported : Text → Option Text → Entry → Bool
exported tenant_id conversation_id e = wanted conversation_id e && text_eq e.tenant_id tenant_id

abbrev line_of : Entry → Line
line_of e = record {
  conversation_id = e.conversation_id;
  event = e.event;
  detail = e.detail;
  ts = e.ts;
  entry_hash = e.entry_hash;
}

pub audit_export : Text → Option Text → AuditLog → List Line
audit_export tenant_id conversation_id log =
    map line_of (select (exported tenant_id conversation_id) log.entries)

abbrev about : Text → Text → Text → Entry → Bool
about tenant_id conversation_id event e =
    text_eq e.tenant_id tenant_id && of_conversation conversation_id e && text_eq e.event event

abbrev detail_of : Option Entry → Option Text
detail_of none = none
detail_of (some e) = some e.detail

pub latest_audit_detail : Text → Text → Text → AuditLog → Option Text
latest_audit_detail tenant_id conversation_id event log =
    detail_of (find_last (about tenant_id conversation_id event) log.entries)

detail_of-either :
    (b : Bool) (e : Entry) (o : Option Entry)
    → detail_of (if b then some e else o) ≡ (if b then some e.detail else detail_of o)
detail_of-either true e o = refl
detail_of-either false e o = refl

map-either :
    (b : Bool) (e : Entry) (es : List Entry)
    → map line_of (if b then es ++ e ∷ [] else es)
      ≡ (if b then map line_of es ++ line_of e ∷ [] else map line_of es)
map-either true e es = map-append line_of es (e ∷ [])
map-either false e es = refl

module _ (sha256 : Text → Text) (ts t : Text) (c : Option Text) (event detail : Text) where
  -- The detail that is read for a conversation's event is the one that was written last.
  pub latest_audit_detail-audit :
      (t' c' event' : Text) (log : AuditLog)
      → latest_audit_detail t' c' event' (audit sha256 ts t c event detail log) ≡ (
          if text_eq t t' && is_for c' c && text_eq event event'
          then some detail
          else latest_audit_detail t' c' event' log)
  unfolding latest_audit_detail audit
  latest_audit_detail-audit t' c' event' log =
      ap detail_of (find_last-append (about t' c' event') log.entries _)
      ∙ detail_of-either _ _ (find_last (about t' c' event') log.entries)

  -- An entry is exported behind the earlier ones of its tenant, and to no other tenant.
  pub audit_export-audit :
      (t' : Text) (log : AuditLog)
      → let hash = chain_hash sha256 (last_hash t log) (fields t c event detail ts) in
        let line : Line = record {
          conversation_id = c;
          event = event;
          detail = detail;
          ts = ts;
          entry_hash = hash;
        } in
        audit_export t' none (audit sha256 ts t c event detail log)
        ≡ (if text_eq t t' then audit_export t' none log ++ line ∷ [] else audit_export t' none log)
  unfolding audit_export audit
  audit_export-audit t' log =
      ap (map line_of) (select-append (exported t' none) log.entries _)
      ∙ map-either _ _ (select (exported t' none) log.entries)
