-- ===== src/Gateway/Auth/Sessions.antt =====
-- The life of a session (voclyp/gateway/app.py, `_session_claims` and `logout`).
use voclyp_dev.Prelude.{
  ℕ, ◌+◌, String, ◌≡◌, refl, sym, ap, ◌∙◌, inl, inr, Option-cases, true, Option, none, some, ◌++◌,
  arith, if◌then◌else◌, ltb, length, eq_iff, subst, Text, drop, absent, ◌*◌,
}
use voclyp_dev.Users.Epochs.{get_user-bump_session_epoch}
use voclyp_dev.Users.{Directory, Library, Public, get_user, bump_session_epoch}
use voclyp_dev.Security.Tokens.{
  Claims, Codec, verify_session_token, verify_session_token-time,
  issue_session_token-verify_session_token,
}
use voclyp_dev.Gateway.Auth.{
  Settings, App, bearer, session_claims, live_claims, check_user, logout, end_sessions,
  session_payload, session_ttl_s,
}

abbrev epoch_of : Option Public → ℕ
epoch_of none = 0
epoch_of (some u) = u.session_epoch

module _ (settings : Settings) (codec : Codec) (py : Library) where
  -- Why a session is accepted: its token verifies, and its user has the epoch and role it names.
  record Accepted (now : ℕ) (authorization : Text) (d : Directory) (c : Claims) : Type 0 where
    signed : Claims
    user : Public
    verified :
        verify_session_token codec now settings.session_secret (drop (length bearer) authorization)
        ≡ some signed
    known : get_user signed.sub d ≡ some user
    current : signed.epoch ≡ user.session_epoch
    of_role : signed.role ≡ user.role
    claims : c ≡ record signed { tenant = user.tenant_id; role = user.role }

  session_claims-Accepted :
      (now : ℕ) (authorization : Text) (d : Directory) (c : Claims)
      → session_claims settings codec py now authorization d ≡ some c
      → Accepted now authorization d c
  unfolding session_claims live_claims check_user
  session_claims-Accepted now authorization d c h =
      elim (Option-cases (
        verify_session_token codec now settings.session_secret
          (drop (length bearer) authorization))) [
            | inl unsigned ↦ ground (arith, unsigned)
            | inr (signed, verified) ↦ elim (Option-cases (get_user signed.sub d)) [
              | inl gone ↦ ground (arith, verified, gone)
              | inr (user, known) ↦ record {
                signed = signed;
                user = user;
                verified = verified;
                known = known;
                current = ground (arith, verified, known);
                of_role = ground (arith, verified, known, eq_iff signed.role user.role);
                claims = ground (arith, verified, known);
              }
            ]
          ]

  -- An accepted session is not accepted after its user's epoch was counted up.
  Accepted-revoked :
      (now later : ℕ) (tried : Text) (d : Directory) (c : Claims) (id : String)
      → id ≡ c.sub
      → session_claims settings codec py now tried d ≡ some c
      → session_claims settings codec py later tried (bump_session_epoch id d) ≡ none
  Accepted-revoked now later tried d c id own before =
      elim (Option-cases (session_claims settings codec py later tried (bump_session_epoch id d))) [
        | inl refused ↦ refused
        | inr (e, accepted) ↦
            let old = session_claims-Accepted now tried d c before in
            let new = session_claims-Accepted later tried (bump_session_epoch id d) e accepted in
            let one_token : old.signed ≡ new.signed =
              verify_session_token-time codec now later settings.session_secret
                (drop (length bearer) tried) old.signed new.signed old.verified new.verified in
            let own_id : id ≡ new.signed.sub =
              own ∙ (ap Claims.sub old.claims ∙ ap Claims.sub one_token) in
            let was : get_user new.signed.sub d ≡ some old.user =
              subst (λ x. get_user x.sub d ≡ some old.user) one_token old.known in
            let is : get_user new.signed.sub (bump_session_epoch id d)
                ≡ some (let u = old.user in record u { session_epoch = u.session_epoch + 1 }) =
              get_user-bump_session_epoch id new.signed.sub d
              ∙ rw ((eq_iff id new.signed.sub).1 own_id, was) refl in
            let epochs : new.user.session_epoch ≡ old.user.session_epoch + 1 =
              ap epoch_of (sym new.known ∙ is) in
            absurd (omega (arith, epochs, new.current, old.current, ap Claims.epoch one_token))
      ]

  -- Once a user has logged out, no token of that user that was accepted before is accepted again,
  -- under whatever header and at whatever time.
  pub logout-revokes :
      (now now' later : ℕ) (authorization tried : Text) (a : App) (c c' : Claims)
      → session_claims settings codec py now authorization a.directory ≡ some c
      → session_claims settings codec py now' tried a.directory ≡ some c'
      → c.sub ≡ c'.sub
      → session_claims settings codec py later tried
          (logout settings codec py now authorization a).0.directory
        ≡ none
  unfolding logout end_sessions
  logout-revokes now now' later authorization tried a c c' out before same =
      rw out (Accepted-revoked now' later tried a.directory c' c.sub same before)

  abbrev pub claims_of : ℕ → Public → Claims
  claims_of now user = record {
    sub = user.user_id;
    email = user.email;
    name = user.name;
    role = user.role;
    tenant = user.tenant_id;
    epoch = user.session_epoch;
    iat = now;
    exp = now + session_ttl_s;
  }

  -- The token that a login or a signup hands to a user of the directory is accepted for twelve
  -- hours, and not after, as that user with the user's role and tenant, where base64 and JSON decode
  -- what they encoded and the base64 has no dot.
  pub session_payload-accepted :
      (now later : ℕ) (user : Public) (d : Directory)
      → get_user user.user_id d ≡ some user
      → let body = codec.b64u (codec.dumps (claims_of now user)) in
        absent 46 body ≡ true
        → codec.b64u_decode (codec.b64u (codec.dumps (claims_of now user)))
          ≡ some (codec.dumps (claims_of now user))
        → codec.loads (codec.dumps (claims_of now user)) ≡ some (claims_of now user)
        → session_claims settings codec py later
            (bearer ++ session_payload settings codec py now user)
            d
          ≡ (if ltb (now + 12 * 3600) later then none else some (claims_of now user))
  unfolding session_claims live_claims check_user session_payload
  session_payload-accepted now later user d there no_dot decodes loads =
      let verified =
        issue_session_token-verify_session_token codec now later (12 * 3600) settings.session_secret
          (record {
            sub = user.user_id;
            email = user.email;
            name = user.name;
            role = user.role;
            tenant = user.tenant_id;
            epoch = user.session_epoch;
            iat = now;
            exp = 0;
          })
          no_dot decodes loads in
      ground (arith, verified, there, eq_iff user.role user.role)
