-- ===== src/Users.antt =====
-- The console users and the voiceprints of voclyp/store.py. Python's `strip` and `lower`, its class
-- of spaces, the PBKDF2 hash, fresh ids and salts and the clock are arguments.
mod Tests
pub mod Login
pub mod Epochs
use voclyp_dev.Prelude.{
  ℕ, ◌+◌, String, Bool, true, false, not, ◌&&◌, ◌||◌, Option, none, some, List, [], ◌∷◌, ◌++◌,
  if◌then◌else◌, ltb, length, is_some, str_eq, find, count, update, delete, Text, text_eq, split,
  member, ◌==◌,
}
use voclyp_dev.Prelude.Keys.{with_key}
use voclyp_dev.Accounts.{empty, user_roles, verify_secret}

-- a row of `users`
pub record User : Type 0 where
  pub user_id : String
  pub email : Text
  pub name : Text
  pub role : String
  pub tenant_id : String
  pub key_hash : Text
  pub salt : Text
  pub created_at : ℕ
  pub session_epoch : ℕ

-- a row of `voiceprints`; the vector counts thousandths
pub record Voiceprint : Type 0 where
  pub tenant_id : String
  pub user_id : String
  pub vector : List ℕ
  pub sample_count : ℕ
  pub model : String
  pub created_at : ℕ
  pub updated_at : ℕ

-- the audit entry of an enrollment, with the values that its text prints
pub data AuditCall : Type 0 where
  voiceprint_enrolled : String → String → ℕ → String → AuditCall

pub record Directory : Type 0 where
  pub users : List User
  pub voiceprints : List Voiceprint
  pub audits : List AuditCall

-- the ValueErrors of `create_user`
pub data Error : Type 0 where
  unknown_role invalid_email no_name password_too_short account_exists password_too_long : Error

-- a directory with the new user's id, or an exception; `id_exists` is the database's own
pub data Result : Type 0 where
  created : Directory → String → Result
  refused : Error → Result
  id_exists : Result

-- `verify_user_password` and `get_user` without the secrets
pub record Public : Type 0 where
  pub user_id : String
  pub email : Text
  pub name : Text
  pub role : String
  pub tenant_id : String
  pub session_epoch : ℕ

abbrev pub public_of : User → Public
public_of u = record {
  user_id = u.user_id;
  email = u.email;
  name = u.name;
  role = u.role;
  tenant_id = u.tenant_id;
  session_epoch = u.session_epoch;
}

public_of_found : Option User → Option Public
public_of_found none = none
public_of_found (some u) = some (public_of u)

-- a dot that is not the last character
dot_before_end : Text → Bool
dot_before_end [] = false
dot_before_end (c ∷ t) = (c == b'.' && not (empty t)) || dot_before_end t

-- `[^@\s]+\.[^@\s]+`, of a text without "@" and spaces
dot_inside : Text → Bool
dot_inside [] = false
dot_inside (c ∷ t) = dot_before_end t

without : (ℕ → Bool) → Text → Bool
without p [] = true
without p (c ∷ t) = not (p c) && without p t

local_and_domain : List Text → Bool
local_and_domain (local ∷ domain ∷ []) = not (empty local) && dot_inside domain
local_and_domain _ = false

-- what Python's library and the secrets module give
pub record Library : Type 0 where
  pub strip : Text → Text
  pub lower : Text → Text
  pub is_space : ℕ → Bool
  pub hash : Text → Text → Text

module _ (py : Library) where
  -- `(email or "").strip().lower()`
  abbrev pub folded : Text → Text
  folded email = py.lower (py.strip email)

  -- `_EMAIL.match`, of a text that was stripped
  unfoldable pub is_email : Text → Bool
  unfolding dot_before_end dot_inside without local_and_domain
  is_email email = without py.is_space email && local_and_domain (split b'@' email)

  abbrev pub has_email : Text → User → Bool
  has_email email u = text_eq u.email (folded email)

  pub get_user_by_email : Text → Directory → Option User
  get_user_by_email email d = find (has_email email) d.users

  insert_user : User → Directory → Result
  insert_user row d =
      if is_some (find (with_key User.user_id row.user_id) d.users)
      then id_exists
      else created (record d { users = d.users ++ row ∷ [] }) row.user_id

  -- `create_user`, given the new id and the salt
  unfoldable pub create_user :
      ℕ → String → Text → Text → Text → String → String → Text → Directory → Result
  unfolding is_email get_user_by_email insert_user
  create_user now user_id salt email name role tenant_id password d =
      let row : User = record {
        user_id = user_id;
        email = folded email;
        name = py.strip name;
        role = role;
        tenant_id = tenant_id;
        key_hash = py.hash password salt;
        salt = salt;
        created_at = now;
        session_epoch = 0;
      } in
      if not (member role user_roles)
      then refused unknown_role
      else if not (is_email (folded email))
      then refused invalid_email
      else if empty (py.strip name)
      then refused no_name
      else if ltb (length password) 8
      then refused password_too_short
      else if is_some (get_user_by_email (folded email) d)
      then refused account_exists
      else if ltb 256 (length password)
      then refused password_too_long
      else insert_user row d

  check_password : Text → Option User → Option Public
  check_password password none = none
  check_password password (some u) =
      if not (verify_secret py.hash password u.salt u.key_hash) then none else some (public_of u)

  pub verify_user_password : Text → Text → Directory → Option Public
  unfolding check_password
  verify_user_password email password d = check_password password (get_user_by_email email d)

unfoldable pub get_user : String → Directory → Option Public
unfolding public_of_found
get_user user_id d = public_of_found (find (with_key User.user_id user_id) d.users)

unfoldable pub bump_session_epoch : String → Directory → Directory
bump_session_epoch user_id d = record d {
  users =
      update (with_key User.user_id user_id) (λ u. record u { session_epoch = u.session_epoch + 1 })
        d.users;
}

unfoldable pub tenant_user_count : String → Directory → ℕ
tenant_user_count tenant_id d = count (λ u. str_eq u.tenant_id tenant_id) d.users

abbrev voiceprint_of : String → String → Voiceprint → Bool
voiceprint_of tenant_id user_id v = str_eq v.tenant_id tenant_id && str_eq v.user_id user_id

unfoldable pub get_voiceprint : String → String → Directory → Option Voiceprint
get_voiceprint tenant_id user_id d = find (voiceprint_of tenant_id user_id) d.voiceprints

-- `existing["created_at"] if existing else utcnow()`
created_or : ℕ → Option Voiceprint → ℕ
created_or now none = now
created_or now (some v) = v.created_at

pub set_voiceprint : ℕ → String → String → List ℕ → String → ℕ → Directory → Directory
unfolding created_or get_voiceprint
set_voiceprint now tenant_id user_id vector model sample_count d =
    let row : Voiceprint = record {
      tenant_id = tenant_id;
      user_id = user_id;
      vector = vector;
      sample_count = sample_count;
      model = model;
      created_at = created_or now (get_voiceprint tenant_id user_id d);
      updated_at = now;
    } in
    record d {
      voiceprints = delete (voiceprint_of tenant_id user_id) d.voiceprints ++ row ∷ [];
      audits = d.audits ++ voiceprint_enrolled tenant_id user_id (length vector) model ∷ [];
    }
