-- ===== src/Security/Tokens.antt =====
-- The session tokens of voclyp/security.py: the claims as JSON in base64url, and behind a dot their
-- signature. JSON, base64 and HMAC come from Python's library and are arguments; the base64 of the
-- library has no dot, and its padding is left out.
use voclyp_dev.Prelude.{
  ℕ, ◌+◌, String, true, not, ◌≡◌, refl, arith, Option, none, some, ◌∷◌, ◌++◌, if◌then◌else◌, ltb,
  Text, text_eq, text_eq_iff, partition, absent, partition-append, inl, inr, Option-cases,
}

-- the claims that the gateway signs
pub record Claims : Type 0 where
  pub sub : String
  pub email : Text
  pub name : Text
  pub role : String
  pub tenant : String
  pub epoch : ℕ
  pub iat : ℕ
  pub exp : ℕ

pub record Codec : Type 0 where
  pub dumps : Claims → Text
  pub loads : Text → Option Claims
  pub b64u : Text → Text
  pub b64u_decode : Text → Option Text
  pub hmac : Text → Text → Text

abbrev dot : ℕ
dot = 46

module _ (c : Codec) where
  -- `issue_session_token`
  pub issue_session_token : ℕ → Text → ℕ → Claims → Text
  issue_session_token now secret ttl claims =
      let body = c.b64u (c.dumps (record claims { exp = now + ttl })) in
      body ++ (dot ∷ c.b64u (c.hmac secret body))

  load : Option Text → Option Claims
  load none = none
  load (some raw) = c.loads raw

  unexpired : ℕ → Option Claims → Option Claims
  unexpired now none = none
  unexpired now (some claims) = if ltb claims.exp now then none else some claims

  verify_parts : ℕ → Text → Option (Text × Text) → Option Claims
  unfolding load unexpired
  verify_parts now secret none = none
  verify_parts now secret (some (body, sig)) =
      if not (text_eq (c.b64u (c.hmac secret body)) sig)
      then none
      else unexpired now (load (c.b64u_decode body))

  -- `verify_session_token`
  pub verify_session_token : ℕ → Text → Text → Option Claims
  unfolding verify_parts
  verify_session_token now secret token = verify_parts now secret (partition dot token)

  -- A token that was issued is accepted for its claims until its time to live is over, and not
  -- after, where base64 and JSON decode what they encoded and the base64 has no dot.
  pub issue_session_token-verify_session_token :
      (now later ttl : ℕ) (secret : Text) (claims : Claims)
      → let signed = record claims { exp = now + ttl } in
        absent dot (c.b64u (c.dumps signed)) ≡ true
        → c.b64u_decode (c.b64u (c.dumps signed)) ≡ some (c.dumps signed)
        → c.loads (c.dumps signed) ≡ some signed
        → verify_session_token later secret (issue_session_token now secret ttl claims)
          ≡ (if ltb (now + ttl) later then none else some signed)
  unfolding verify_session_token issue_session_token verify_parts load unexpired
  issue_session_token-verify_session_token now later ttl secret claims no_dot decodes loads =
      let body = c.b64u (c.dumps (record claims { exp = now + ttl })) in
      let sig = c.b64u (c.hmac secret body) in
      rw (partition-append dot body sig no_dot, (text_eq_iff sig sig).1 refl, decodes, loads) refl

  -- A token that stands for claims stands for no others at another time.
  pub verify_session_token-time :
      (now later : ℕ) (secret token : Text) (d d' : Claims)
      → verify_session_token now secret token ≡ some d
      → verify_session_token later secret token ≡ some d'
      → d ≡ d'
  unfolding verify_session_token verify_parts unexpired
  verify_session_token-time now later secret token d d' h k =
      elim (Option-cases (partition dot token)) [
        | inl bare ↦ ground (arith, bare)
        | inr ((body, sig), split) ↦ elim (Option-cases (load (c.b64u_decode body))) [
          | inl bad ↦ ground (arith, split, bad)
          | inr (e, good) ↦ ground (arith, split, good)
        ]
      ]
