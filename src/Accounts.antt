-- ===== src/Accounts.antt =====
-- The API keys and the invites of voclyp/store.py, with `parse_api_key` and `verify_secret` of
-- voclyp/security.py. Fresh ids, secrets and salts, the clock (in seconds) and the PBKDF2 hash are
-- arguments; the hash takes the secret and the salt in hexadecimal.
mod Tests
pub mod Keys
pub mod Invites
use voclyp_dev.Prelude.{
  ℕ, ◌+◌, ◌*◌, String, Bool, true, false, not, ◌&&◌, ◌||◌, Option, none, some, List, [], ◌∷◌, ◌++◌,
  if◌then◌else◌, ltb, is_some, find, update, Text, codes, text_eq, split_max, split, join, member,
}

-- a row of `api_keys`; `scopes` is the joined text
pub record ApiKey : Type 0 where
  pub key_id : Text
  pub key_hash : Text
  pub salt : Text
  pub tenant_id : Text
  pub scopes : Text
  pub created_at : ℕ
  pub expires_at : Option ℕ
  pub revoked : Bool

-- a row of `invites`
pub record Invite : Type 0 where
  pub invite_id : Text
  pub code_hash : Text
  pub salt : Text
  pub tenant_id : Text
  pub role : String
  pub created_by : Text
  pub expires_at : Option ℕ
  pub used : Bool
  pub created_at : ℕ

-- the audit entries that these methods write
pub data AuditCall : Type 0 where
  api_key_revoked : Text → AuditCall

pub record Accounts : Type 0 where
  pub api_keys : List ApiKey
  pub invites : List Invite
  pub audits : List AuditCall

-- what `authenticate` returns
pub record Identity : Type 0 where
  pub tenant_id : Text
  pub scopes : List Text
  pub key_id : Text

abbrev pub underscore : ℕ
underscore = 95

abbrev pub comma : ℕ
comma = 44

abbrev pub empty : Text → Bool
empty [] = true
empty (c ∷ t) = false

-- the three parts of a key or a code, if the first is the prefix
pub with_prefix : Text → List Text → Option (Text × Text)
with_prefix prefix (p ∷ id ∷ secret ∷ []) = if text_eq p prefix then some (id, secret) else none
with_prefix prefix _ = none

abbrev pub key_prefix : Text
key_prefix = codes "vclp"

abbrev pub code_prefix : Text
code_prefix = codes "vinv"

both_there : Option (Text × Text) → Option (Text × Text)
both_there none = none
both_there (some (id, secret)) = if empty id || empty secret then none else some (id, secret)

-- `parse_api_key`
pub parse_api_key : Text → Option (Text × Text)
unfolding with_prefix both_there
parse_api_key full_key = both_there (with_prefix key_prefix (split_max underscore 2 full_key))

-- the first lines of `consume_invite`
unfoldable pub parse_code : Text → Option (Text × Text)
unfolding with_prefix
parse_code code = with_prefix code_prefix (split_max underscore 2 code)

-- f"{prefix}_{id}_{secret}"
abbrev pub shown : Text → Text → Text → Text
shown prefix id secret = prefix ++ (underscore ∷ (id ++ (underscore ∷ secret)))

abbrev pub has_key_id : Text → ApiKey → Bool
has_key_id key_id k = text_eq k.key_id key_id

abbrev pub has_invite_id : Text → Invite → Bool
has_invite_id invite_id i = text_eq i.invite_id invite_id

-- `VALID_SCOPES` and the loop over the scopes
abbrev pub valid_scope : Text → Bool
valid_scope s = text_eq s (codes "ingest") || text_eq s (codes "read") || text_eq s (codes "admin")

abbrev pub valid_scopes : List Text → Bool
valid_scopes [] = true
valid_scopes (s ∷ scopes) = valid_scope s && valid_scopes scopes

-- `USER_ROLES`
abbrev pub user_roles : List String
user_roles = "sales" ∷ "manager" ∷ "store_manager" ∷ "area_manager" ∷ "admin" ∷ []

abbrev pub expires : ℕ → Option ℕ → Option ℕ
expires now none = none
expires now (some days) = some (now + days * 86400)

-- `expires_at and expires_at < utcnow()`
abbrev pub expired : ℕ → Option ℕ → Bool
expired now none = false
expired now (some at) = ltb at now

module _ (hash : Text → Text → Text) where
  -- `hash_secret`, compared in constant time
  abbrev pub verify_secret : Text → Text → Text → Bool
  verify_secret secret salt expected = text_eq (hash secret salt) expected

  -- `none` is an exception: a scope that is not valid, or a key id that is there
  pub create_api_key :
      ℕ → Text → Text → Text → Text → List Text → Option ℕ → Accounts → Option (Accounts × Text)
  create_api_key now key_id secret salt tenant_id scopes expires_days a =
      let row : ApiKey = record {
        key_id = key_id;
        key_hash = hash secret salt;
        salt = salt;
        tenant_id = tenant_id;
        scopes = join comma scopes;
        created_at = now;
        expires_at = expires now expires_days;
        revoked = false;
      } in
      if not (valid_scopes scopes) || is_some (find (has_key_id key_id) a.api_keys)
      then none
      else some (record a { api_keys = a.api_keys ++ row ∷ [] }, shown key_prefix key_id secret)

  check_key : ℕ → Text → Text → Option ApiKey → Option Identity
  check_key now key_id secret none = none
  check_key now key_id secret (some k) =
      if k.revoked || not (verify_secret secret k.salt k.key_hash)
      then none
      else if expired now k.expires_at
      then none
      else some (record { tenant_id = k.tenant_id; scopes = split comma k.scopes; key_id = key_id })

  find_key : ℕ → Option (Text × Text) → Accounts → Option Identity
  find_key now none a = none
  find_key now (some (key_id, secret)) a =
      check_key now key_id secret (find (has_key_id key_id) a.api_keys)

  pub authenticate : ℕ → Text → Accounts → Option Identity
  unfolding find_key check_key
  authenticate now api_key a = find_key now (parse_api_key api_key) a

  -- `none` is an exception: a role that is not known, or an invite id that is there
  pub create_invite :
      ℕ → Text → Text → Text → Text → String → Text → ℕ → Accounts → Option (Accounts × Text)
  create_invite now invite_id secret salt tenant_id role created_by ttl_days a =
      let row : Invite = record {
        invite_id = invite_id;
        code_hash = hash secret salt;
        salt = salt;
        tenant_id = tenant_id;
        role = role;
        created_by = created_by;
        expires_at = some (now + ttl_days * 86400);
        used = false;
        created_at = now;
      } in
      if not (member role user_roles) || is_some (find (has_invite_id invite_id) a.invites)
      then none
      else some (record a { invites = a.invites ++ row ∷ [] }, shown code_prefix invite_id secret)

  -- whether the invite that was found may be used
  usable : ℕ → Text → Text → Invite → Bool
  usable now secret tenant_id i =
      not (i.used || not (text_eq i.tenant_id tenant_id))
      && verify_secret secret i.salt i.code_hash
      && not (expired now i.expires_at)

  burn : Text → Accounts → Accounts
  burn invite_id a = record a {
    invites = update (has_invite_id invite_id) (λ i. record i { used = true }) a.invites;
  }

  use_invite : ℕ → Text → Text → Text → Option Invite → Accounts → Accounts × Option String
  use_invite now tenant_id invite_id secret none a = (a, none)
  use_invite now tenant_id invite_id secret (some i) a =
      if usable now secret tenant_id i then (burn invite_id a, some i.role) else (a, none)

  find_invite : ℕ → Text → Option (Text × Text) → Accounts → Accounts × Option String
  find_invite now tenant_id none a = (a, none)
  find_invite now tenant_id (some (invite_id, secret)) a =
      use_invite now tenant_id invite_id secret (find (has_invite_id invite_id) a.invites) a

  unfoldable pub consume_invite : ℕ → Text → Text → Accounts → Accounts × Option String
  unfolding find_invite use_invite usable burn
  consume_invite now code tenant_id a = find_invite now tenant_id (parse_code code) a

pub revoke_api_key : Text → Accounts → Accounts
revoke_api_key key_id a = record a {
  api_keys = update (has_key_id key_id) (λ k. record k { revoked = true }) a.api_keys;
  audits = a.audits ++ api_key_revoked key_id ∷ [];
}
