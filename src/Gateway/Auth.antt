-- ===== src/Gateway/Auth.antt =====
-- The authentication of voclyp/gateway/app.py: API keys and session tokens, login, logout, signup
-- and invites. JSON bodies are taken apart before; a status code stands for what a route raises.
mod Tests
pub mod Sessions
pub mod Signup
use voclyp_dev.Prelude.{
  ℕ, ◌+◌, ◌*◌, String, Bool, true, false, not, ◌&&◌, ◌||◌, Option, none, some, List, [], ◌∷◌, ◌++◌,
  if◌then◌else◌, ltb, leb, length, is_some, str_eq, Text, codes, text_eq, take, drop, member, ◌==◌,
}
use voclyp_dev.Accounts.{Accounts, Identity, authenticate, create_invite, consume_invite}
use voclyp_dev.Users.{
  User, Directory, Library, Public, Result, created, refused, id_exists, folded, create_user,
  verify_user_password, get_user, bump_session_epoch, tenant_user_count,
}
use voclyp_dev.Ingestion.Tables.{Intake, Tenant, tenant_industry, create_tenant}
use voclyp_dev.Security.Tokens.{Claims, Codec, issue_session_token, verify_session_token}
use voclyp_dev.Gateway.Rate.{Buckets, rate_limit, login_throttle}

-- the audit entries of these routes, with the values that their texts print
pub data AuditCall : Type 0 where
  user_signup : String → String → String → AuditCall
  user_login : String → String → AuditCall
  user_logout : String → String → AuditCall
  invite_created : String → String → String → AuditCall

-- `app.state` and the store behind it
pub record App : Type 0 where
  pub accounts : Accounts
  pub directory : Directory
  pub intake : Intake
  pub rate_buckets : Buckets
  pub login_attempts : Buckets
  pub audits : List AuditCall

pub record Settings : Type 0 where
  pub rate_limit_window_ms : ℕ
  pub rate_limit_requests : ℕ
  pub session_secret : Text

-- one request: the clock in seconds, the monotonic clock in milliseconds
pub record Clock : Type 0 where
  pub now : ℕ
  pub tick : ℕ

-- what a dependency or a route returns, or the status of its HTTPException
pub data Reply {ℓ} (A : Type ℓ) : Type ℓ where
  ok : A → Reply A
  http : ℕ → Reply A

-- what `principal` returns
pub record Principal : Type 0 where
  pub tenant_id : Text
  pub scopes : List Text
  pub user_id : Option String

abbrev session_ttl_s : ℕ
session_ttl_s = 12 * 3600

-- `ROLE_SCOPES.get(role, ())`
pub role_scopes : String → List Text
role_scopes role =
    if member role ("admin" ∷ "area_manager" ∷ "store_manager" ∷ "manager" ∷ [])
    then codes "read" ∷ codes "admin" ∷ []
    else if str_eq role "sales"
    then codes "ingest" ∷ codes "read" ∷ []
    else []

abbrev pub bearer : Text
bearer = codes "Bearer "

-- `scope in auth["scopes"]`
abbrev pub has_scope : Text → List Text → Bool
has_scope scope [] = false
has_scope scope (s ∷ scopes) = text_eq s scope || has_scope scope scopes

abbrev log : AuditCall → App → App
log call a = record a { audits = a.audits ++ call ∷ [] }

module _ (settings : Settings) (codec : Codec) (py : Library) where
  -- the live user against the claims
  check_user : Claims → Option Public → Option Claims
  check_user claims none = none
  check_user claims (some user) =
      if not (claims.epoch == user.session_epoch)
      then none
      else if not (str_eq claims.role user.role)
      then none
      else some (record claims { tenant = user.tenant_id; role = user.role })

  live_claims : Option Claims → Directory → Option Claims
  unfolding check_user
  live_claims none d = none
  live_claims (some claims) d = check_user claims (get_user claims.sub d)

  -- `_session_claims`
  pub session_claims : ℕ → Text → Directory → Option Claims
  unfolding live_claims
  session_claims now authorization d =
      if not (text_eq (take (length bearer) authorization) bearer)
      then none
      else live_claims
          (verify_session_token codec now settings.session_secret
            (drop (length bearer) authorization))
          d

  limited : Clock → String → Principal → App → App × Reply Principal
  limited at key auth a =
      let (buckets, passed) =
        rate_limit settings.rate_limit_window_ms settings.rate_limit_requests at.tick key
          a.rate_buckets in
      (record a { rate_buckets = buckets }, if passed then ok auth else http 429)

  key_principal : (Text → String) → Clock → Option Identity → App → App × Reply Principal
  unfolding limited
  key_principal bucket_key at none a = (a, http 401)
  key_principal bucket_key at (some identity) a =
      limited at (bucket_key identity.key_id)
        (record { tenant_id = identity.tenant_id; scopes = identity.scopes; user_id = none }) a

  session_principal : (String → String) → Clock → Option Claims → App → App × Reply Principal
  unfolding limited
  session_principal bucket_user at none a = (a, http 401)
  session_principal bucket_user at (some claims) a =
      limited at (bucket_user claims.sub)
        (record {
          tenant_id = codes claims.tenant;
          scopes = role_scopes claims.role;
          user_id = some claims.sub;
        })
        a

  -- `principal`, given the texts "key:…" and "user:…" of the buckets; no header is the empty text
  pub principal :
      (Text → String) → (String → String) → Clock → Text → Text → App → App × Reply Principal
  unfolding key_principal session_principal
  principal bucket_key bucket_user at [] authorization a =
      session_principal bucket_user at (session_claims at.now authorization a.directory) a
  principal bucket_key bucket_user at (c ∷ x_api_key) authorization a =
      key_principal bucket_key at (authenticate py.hash at.now (c ∷ x_api_key) a.accounts) a

  -- `require(scope)`, on what `principal` gave
  pub require : Text → Reply Principal → Reply Principal
  require scope (http status) = http status
  require scope (ok auth) = if has_scope scope auth.scopes then ok auth else http 403

  -- `_session_payload`: the token
  pub session_payload : ℕ → Public → Text
  session_payload now user =
      issue_session_token codec now settings.session_secret session_ttl_s (record {
        sub = user.user_id;
        email = user.email;
        name = user.name;
        role = user.role;
        tenant = user.tenant_id;
        epoch = user.session_epoch;
        iat = now;
        exp = 0;
      })

  logged_in : ℕ → Option Public → App → App × Reply Text
  logged_in now none a = (a, http 401)
  logged_in now (some user) a =
      (log (user_login user.tenant_id user.user_id) a, ok (session_payload now user))

  -- `login`, given the text "host:email" of the throttle
  pub login : Clock → String → Text → Text → App → App × Reply Text
  unfolding logged_in
  login at ident email password a =
      let (attempts, passed) = login_throttle at.tick ident a.login_attempts in
      let throttled = record a { login_attempts = attempts } in
      let entered =
        logged_in at.now (verify_user_password py email password a.directory) throttled in
      if passed then entered else (throttled, http 429)

  end_sessions : Option Claims → App → App × Reply Bool
  end_sessions none a = (a, http 401)
  end_sessions (some claims) a = (
    log (user_logout claims.tenant claims.sub)
        (record a { directory = bump_session_epoch claims.sub a.directory }),
    ok true,
  )

  -- `logout`, with `current_user`
  pub logout : ℕ → Text → App → App × Reply Bool
  unfolding end_sessions
  logout now authorization a = end_sessions (session_claims now authorization a.directory) a
