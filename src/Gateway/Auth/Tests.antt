-- ===== src/Gateway/Auth/Tests.antt =====
-- A session, its end, and a signup that fails (voclyp/gateway/app.py). The token here is one
-- character, which stands for one user's claims.
use voclyp_dev.Prelude.{ℕ, ◌+◌, ◌*◌, ◌≡◌, refl, false, none, some, [], ◌∷◌, ◌++◌, Text, codes, ◌==◌}
use voclyp_dev.Queue.{init}
use voclyp_dev.Users.{
  User, Library, public_of, get_user, tenant_user_count, create_user, refused, password_too_short,
  is_email,
}
use voclyp_dev.Security.Tokens.{Claims, Codec}
use voclyp_dev.Accounts.{Accounts, consume_invite, parse_code}
use voclyp_dev.Ingestion.Tables.{tenant_industry}
use voclyp_dev.Gateway.Auth.Signup.{Form, Fresh, signup}
use voclyp_dev.Gateway.Auth.Signup.Burns.{signup-burns}
use voclyp_dev.Gateway.Auth.{http, App, Settings, session_claims, session_payload, bearer, logout}
use voclyp_dev.Gateway.Auth.Sessions.{logout-revokes, session_payload-accepted}

abbrev library : Library
library = record {
  strip = λ t. t;
  lower = λ t. t;
  is_space = λ c. c == 32;
  hash = λ secret salt. secret ++ salt;
}

abbrev settings : Settings
settings = record {
  rate_limit_window_ms = 60000;
  rate_limit_requests = 60;
  session_secret = codes "s";
}

abbrev user : User
user = record {
  user_id = "u1";
  email = codes "a@b.in";
  name = codes "Asha";
  role = "sales";
  tenant_id = "t1";
  key_hash = codes "password77";
  salt = codes "77";
  created_at = 5;
  session_epoch = 0;
}

abbrev claims : Claims
claims = record {
  sub = "u1";
  email = codes "a@b.in";
  name = codes "Asha";
  role = "sales";
  tenant = "t1";
  epoch = 0;
  iat = 100;
  exp = 100 + 12 * 3600;
}

abbrev codec : Codec
codec = record {
  dumps = λ c. 123 ∷ [];
  loads = λ t. some claims;
  b64u = λ t. t;
  b64u_decode = λ t. some t;
  hmac = λ secret t. secret ++ t;
}

abbrev app : App
app = record {
  accounts = record { api_keys = []; invites = []; audits = [] };
  directory = record { users = user ∷ []; voiceprints = []; audits = [] };
  intake = record {
    tenants = [];
    consents = [];
    refs = [];
    files = [];
    queue = init 3;
    audits = [];
  };
  rate_buckets = [];
  login_attempts = [];
  audits = [];
}

abbrev header : Text
header = bearer ++ session_payload settings codec library 100 (public_of user)

has_user : get_user "u1" app.directory ≡ some (public_of user)
unfolding get_user
has_user = refl

accepted : session_claims settings codec library 200 header app.directory ≡ some claims
accepted =
    session_payload-accepted settings codec library 100 200 (public_of user) app.directory has_user
      refl refl refl

accepted_now : session_claims settings codec library 250 header app.directory ≡ some claims
accepted_now =
    session_payload-accepted settings codec library 100 250 (public_of user) app.directory has_user
      refl refl refl

logout-revokes_example :
    session_claims settings codec library 300 header
      (logout settings codec library 250 header app).0.directory
    ≡ none
logout-revokes_example =
    logout-revokes settings codec library 250 200 300 header header app claims claims accepted_now
      accepted refl

-- a tenant with a user and an invite
abbrev peopled : App
peopled = record app {
  accounts = record {
    api_keys = [];
    invites =
        record {
          invite_id = codes "cd34";
          code_hash = codes "s477";
          salt = codes "77";
          tenant_id = codes "t1";
          role = "manager";
          created_by = codes "u1";
          expires_at = some 1000;
          used = false;
          created_at = 5;
        }
        ∷ [];
    audits = [];
  };
  intake = record {
    tenants = record { tenant_id = "t1"; name = "Shop"; industry = "retail"; region = "in" } ∷ [];
    consents = [];
    refs = [];
    files = [];
    queue = init 3;
    audits = [];
  };
}

abbrev form : Form
form = record {
  tenant_id = "t1";
  org = "Shop";
  email = codes "c@d.in";
  name = codes "Ravi";
  password = codes "short";
  invite = codes "vinv_cd34_s4";
}

abbrev fresh : Fresh
fresh = record { now = 9; user_id = "u2"; salt = codes "88" }

is_retail : tenant_industry "t1" peopled.intake ≡ some "retail"
unfolding tenant_industry
is_retail = refl

has_users : (tenant_user_count "t1" peopled.directory == 0) ≡ false
unfolding tenant_user_count
has_users = refl

abbrev after_use : Accounts
after_use = (consume_invite library.hash 9 form.invite (codes "t1") peopled.accounts).0

lets_in :
    consume_invite library.hash 9 form.invite (codes "t1") peopled.accounts
    ≡ (after_use, some "manager")
unfolding consume_invite parse_code
lets_in = refl

refuses :
    create_user library 9 "u2"
      (codes "88")
      form.email
      form.name
      "manager"
      "t1"
      form.password
      peopled.directory
    ≡ refused password_too_short
unfolding create_user is_email
refuses = refl

signup-burns_example :
    let (a', reply) = signup settings codec library fresh form peopled in
    (reply ≡ http 400)
    × (a'.directory ≡ peopled.directory)
    × ((later : ℕ) (tenant : Text)
        → (consume_invite library.hash later form.invite tenant a'.accounts).1 ≡ none)
signup-burns_example =
    signup-burns settings codec library fresh form peopled "retail" "manager" after_use
      password_too_short is_retail has_users lets_in refuses
