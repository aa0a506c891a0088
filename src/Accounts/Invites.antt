-- ===== src/Accounts/Invites.antt =====
-- An invite is used once (voclyp/store.py, `consume_invite`).
use mathlib.Core.Option
use voclyp_dev.Prelude.{
  ℕ, ◌+◌, ◌*◌, ◌≤◌, member, String, ◌≡◌, refl, ◌∙◌, ap, Bool-cases, inl, inr, true, false, Option,
  Option-cases, none, some, List, [], ◌∷◌, ◌++◌, arith, find, update, Text, text_eq_refl, absent,
}
use voclyp_dev.Accounts.{
  Invite, Accounts, user_roles, underscore, with_prefix, code_prefix, shown, parse_code,
  has_invite_id, create_invite, usable, burn, use_invite, find_invite, consume_invite,
}
use voclyp_dev.Accounts.Keys.{split-shown}

abbrev mark_used : Invite → Invite
mark_used i = record i { used = true }

burnt :
    (id : Text) (is : List Invite)
    → find (has_invite_id id) (update (has_invite_id id) mark_used is)
      ≡ Option.map mark_used (find (has_invite_id id) is)
burnt id [] = refl
burnt id (i ∷ is) = ground (arith, burnt id is)

module _ (hash : Text → Text → Text) where
  used-usable :
      (now : ℕ) (secret tenant_id : Text) (i : Invite)
      → usable hash now secret tenant_id (record i { used = true }) ≡ false
  unfolding usable
  used-usable now secret tenant_id i = ground arith

  burnt-refused :
      (later : ℕ) (u id secret : Text) (a : Accounts)
      → (find_invite hash later u (some (id, secret)) (burn hash id a)).1 ≡ none
  unfolding find_invite use_invite burn
  burnt-refused later u id secret a = elim (Option-cases (find (has_invite_id id) a.invites)) [
    | inl e ↦ rw (burnt id a.invites, e) refl
    | inr (i, e) ↦ rw (burnt id a.invites, e) (rw (used-usable later secret u i) refl)
  ]

  found-burns :
      (now : ℕ) (t id secret : Text) (o : Option Invite) (a : Accounts) (role : String)
      → (use_invite hash now t id secret o a).1 ≡ some role
      → (use_invite hash now t id secret o a).0 ≡ burn hash id a
  unfolding use_invite
  found-burns now t id secret none a role h = cc
  found-burns now t id secret (some i) a role h = ground arith

  once :
      (now later : ℕ) (p : Option (Text × Text)) (t u : Text) (a : Accounts) (role : String)
      → (find_invite hash now t p a).1 ≡ some role
      → (find_invite hash later u p (find_invite hash now t p a).0).1 ≡ none
  unfolding find_invite
  once now later none t u a role h = refl
  once now later (some (id, secret)) t u a role h =
      ap (λ b. (find_invite hash later u (some (id, secret)) b).1)
        (found-burns now t id secret (find (has_invite_id id) a.invites) a role h)
      ∙ burnt-refused later u id secret a

  -- A code that was accepted is never accepted again, whenever and for whichever tenant it is tried.
  pub consume_invite-once :
      (now later : ℕ) (code t u : Text) (a : Accounts) (role : String)
      → (consume_invite hash now code t a).1 ≡ some role
      → (consume_invite hash later code u (consume_invite hash now code t a).0).1 ≡ none
  unfolding consume_invite
  consume_invite-once now later code t u a role h = once now later (parse_code code) t u a role h

found-new_invite :
    (id : Text) (is : List Invite) (row : Invite)
    → row.invite_id ≡ id
    → find (has_invite_id id) is ≡ none
    → find (has_invite_id id) (is ++ row ∷ []) ≡ some row
found-new_invite id [] row e h = rw (e, text_eq_refl id) refl
found-new_invite id (i ∷ is) row e h = ground (arith, found-new_invite id is row e)

parse_code-shown :
    (id secret : Text)
    → absent underscore id ≡ true
    → parse_code (shown code_prefix id secret) ≡ some (id, secret)
unfolding parse_code with_prefix
parse_code-shown id secret h =
    ap (with_prefix code_prefix) (split-shown code_prefix id secret refl h)

module _ (hash : Text → Text → Text) (now : ℕ) (id secret salt tenant created_by : Text)
    (role : String) (days : ℕ) where
  abbrev new_invite : Invite
  new_invite = record {
    invite_id = id;
    code_hash = hash secret salt;
    salt = salt;
    tenant_id = tenant;
    role = role;
    created_by = created_by;
    expires_at = some (now + days * 86400);
    used = false;
    created_at = now;
  }

  new-usable :
      (later : ℕ) → later ≤ now + days * 86400 → usable hash later secret tenant new_invite ≡ true
  unfolding usable
  new-usable later live = ground (arith, text_eq_refl tenant, text_eq_refl (hash secret salt))

  consumed :
      (later : ℕ) (a : Accounts)
      → absent underscore id ≡ true
      → find (has_invite_id id) a.invites ≡ none
      → later ≤ now + days * 86400
      → (consume_invite hash later
          (shown code_prefix id secret)
          tenant
          (record a { invites = a.invites ++ new_invite ∷ [] })).1
        ≡ some role
  unfolding consume_invite find_invite use_invite
  consumed later a h new live =
      let b = record a { invites = a.invites ++ new_invite ∷ [] } in
      ap (λ p. (find_invite hash later tenant p b).1) (parse_code-shown id secret h)
      ∙ ap (λ o. (use_invite hash later tenant id secret o b).1)
          (found-new_invite id a.invites new_invite refl new)
      ∙ rw (new-usable later live) refl

  -- The code of an invite that was just created, with an id that holds no underscore, gives its role
  -- to a user who joins its tenant before it expires.
  pub create_invite-consume_invite :
      (later : ℕ) (a a' : Accounts) (code : Text)
      → absent underscore id ≡ true
      → create_invite hash now id secret salt tenant role created_by days a ≡ some (a', code)
      → later ≤ now + days * 86400
      → (consume_invite hash later code tenant a').1 ≡ some role
  unfolding create_invite
  create_invite-consume_invite later a a' code h made live =
      elim (Bool-cases (member role user_roles)) [
        | inr bad ↦ absurd (cc (rw bad at made))
        | inl good ↦ elim (Option-cases (find (has_invite_id id) a.invites)) [
          | inr (i, old) ↦ absurd (cc (rw (good, old) at made))
          | inl new ↦
              let made_of : Accounts × Text = (
                record a { invites = a.invites ++ new_invite ∷ [] },
                shown code_prefix id secret,
              ) in
              let result : some made_of ≡ some (a', code) = rw (good, new) at made in
              let same : ◌≡◌ {A = Accounts × Text} (a', code) made_of = cc in
              ap (λ (p : Accounts × Text). (consume_invite hash later p.1 tenant p.0).1) same
              ∙ consumed later a h new live
        ]
      ]
