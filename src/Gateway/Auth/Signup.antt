-- ===== src/Gateway/Auth/Signup.antt =====
-- `signup` and `make_invite` of voclyp/gateway/app.py.
pub mod Burns
use voclyp_dev.Prelude.{
  ℕ, ◌+◌, String, Bool, true, false, not, ◌&&◌, ◌||◌, Option, none, some, List, [], ◌∷◌, ◌++◌,
  if◌then◌else◌, ltb, leb, length, is_some, str_eq, Text, codes, text_eq, take, drop, member, ◌==◌,
}
use voclyp_dev.Accounts.{Accounts, create_invite, consume_invite}
use voclyp_dev.Users.{
  Directory, Library, Public, Result, created, refused, id_exists, create_user,
  verify_user_password, tenant_user_count,
}
use voclyp_dev.Ingestion.Tables.{Intake, Tenant, tenant_industry, create_tenant}
use voclyp_dev.Security.Tokens.{Claims, Codec}
use voclyp_dev.Gateway.Auth.{
  App, Settings, Reply, ok, http, user_signup, invite_created, session_payload, session_claims, log,
}

-- the fields of a signup that are read, with the slug of the organization and its name
pub record Form : Type 0 where
  pub tenant_id : String
  pub org : String
  pub email : Text
  pub name : Text
  pub password : Text
  pub invite : Text

-- what a signup takes from the system
pub record Fresh : Type 0 where
  pub now : ℕ
  pub user_id : String
  pub salt : Text

abbrev with_directory : Directory → App → App
with_directory d a = record a { directory = d }

module _ (settings : Settings) (codec : Codec) (py : Library) where
  payload_for : ℕ → Option Public → App → App × Reply Text
  payload_for now none a = (a, http 500)
  payload_for now (some user) a = (a, ok (session_payload settings codec py now user))

  admit : Fresh → Form → String → Result → App → App × Reply Text
  unfolding payload_for
  admit fresh form role (refused error) a = (a, http 400)
  admit fresh form role id_exists a = (a, http 500)
  admit fresh form role (created d user_id) a =
      payload_for fresh.now (verify_user_password py form.email form.password d)
        (log (user_signup form.tenant_id user_id role) (with_directory d a))

  -- from the `try` on
  enroll : Fresh → Form → String → App → App × Reply Text
  unfolding admit
  enroll fresh form role a =
      admit fresh form role
        (create_user py fresh.now fresh.user_id fresh.salt form.email form.name role form.tenant_id
          form.password a.directory)
        a

  invited : Fresh → Form → Accounts × Option String → App → App × Reply Text
  unfolding enroll
  invited fresh form (accounts, none) a = (record a { accounts = accounts }, http 403)
  invited fresh form (accounts, some role) a =
      enroll fresh form role (record a { accounts = accounts })

  found : Fresh → Form → Option Intake → App → App × Reply Text
  unfolding enroll
  found fresh form none a = (a, http 500)
  found fresh form (some intake) a = enroll fresh form "manager" (record a { intake = intake })

  join_or_found : Fresh → Form → Option String → App → App × Reply Text
  unfolding invited found
  join_or_found fresh form none a =
      let tenant : Tenant = record {
        tenant_id = form.tenant_id;
        name = form.org;
        industry = "fmcg";
        region = "in";
      } in
      found fresh form (create_tenant tenant a.intake) a
  join_or_found fresh form (some industry) a =
      if tenant_user_count form.tenant_id a.directory == 0
      then enroll fresh form "manager" a
      else invited fresh form
          (consume_invite py.hash fresh.now form.invite (codes form.tenant_id) a.accounts) a

  -- `signup`
  pub signup : Fresh → Form → App → App × Reply Text
  unfolding join_or_found
  signup fresh form a = join_or_found fresh form (tenant_industry form.tenant_id a.intake) a

  minted : Claims → String → Option (Accounts × Text) → App → App × Reply Text
  minted claims role none a = (a, http 400)
  minted claims role (some (accounts, code)) a = (
    log (invite_created claims.tenant claims.sub role) (record a { accounts = accounts }),
    ok code,
  )

  invite_by : ℕ → Text → Text → Text → String → Option Claims → App → App × Reply Text
  unfolding minted
  invite_by now invite_id secret salt role none a = (a, http 401)
  invite_by now invite_id secret salt role (some claims) a =
      if not (member claims.role ("manager" ∷ "admin" ∷ "area_manager" ∷ []))
      then (a, http 403)
      else minted claims role
          (create_invite py.hash now invite_id secret salt (codes claims.tenant) role
            (codes claims.sub) 14 a.accounts)
          a

  -- `make_invite`, given the new invite's id, secret and salt
  pub make_invite : ℕ → Text → Text → Text → Text → String → App → App × Reply Text
  unfolding invite_by
  make_invite now invite_id secret salt authorization role a =
      invite_by now invite_id secret salt role
        (session_claims settings codec py now authorization a.directory) a
