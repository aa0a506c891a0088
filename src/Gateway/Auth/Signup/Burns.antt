-- ===== src/Gateway/Auth/Signup/Burns.antt =====
-- A signup that fails has used up its invite (voclyp/gateway/app.py, `signup`).
use voclyp_dev.Prelude.{ℕ, String, ◌≡◌, refl, sym, ap, ◌∙◌, false, none, some, Text, codes, ◌==◌}
use voclyp_dev.Accounts.{Accounts, consume_invite}
use voclyp_dev.Accounts.Invites.{consume_invite-once}
use voclyp_dev.Users.{Library, create_user, tenant_user_count, refused, Error}
use voclyp_dev.Security.Tokens.{Codec}
use voclyp_dev.Ingestion.Tables.{tenant_industry}
use voclyp_dev.Gateway.Auth.{App, Settings, http}
use voclyp_dev.Gateway.Auth.Signup.{Fresh, Form, signup, join_or_found, invited, enroll, admit}

module _ (settings : Settings) (codec : Codec) (py : Library) where
  -- Where the organization has users and the invite is good, a signup whose account is refused, for
  -- its email, its name or its password, is answered 400, stores no user, and has used the invite up:
  -- no later signup is let in by it, whenever and for whichever organization it is tried.
  pub signup-burns :
      (fresh : Fresh) (form : Form) (a : App) (industry role : String) (accounts : Accounts)
      (error : Error)
      → tenant_industry form.tenant_id a.intake ≡ some industry
      → (tenant_user_count form.tenant_id a.directory == 0) ≡ false
      → consume_invite py.hash fresh.now form.invite (codes form.tenant_id) a.accounts
        ≡ (accounts, some role)
      → create_user py fresh.now fresh.user_id fresh.salt form.email form.name role form.tenant_id
          form.password a.directory
        ≡ refused error
      → let (a', reply) = signup settings codec py fresh form a in
        (reply ≡ http 400)
        × (a'.directory ≡ a.directory)
        × ((later : ℕ) (tenant : Text)
            → (consume_invite py.hash later form.invite tenant a'.accounts).1 ≡ none)
  unfolding signup join_or_found invited enroll admit
  signup-burns fresh form a industry role accounts error there peopled good bad =
      rw (there, peopled, good, bad)
        (
          refl,
          refl,
          λ later tenant.
              ap (λ p. (consume_invite py.hash later form.invite tenant p.0).1) (sym good)
              ∙ consume_invite-once py.hash fresh.now later form.invite (codes form.tenant_id)
                  tenant a.accounts role (ap (λ p. p.1) good),
        )
