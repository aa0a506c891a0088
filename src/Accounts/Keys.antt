-- ===== src/Accounts/Keys.antt =====
-- A key that was created is accepted until it expires or is revoked (voclyp/store.py).
use voclyp_dev.Prelude.{
  ℕ, ◌≡◌, refl, ◌∙◌, ap, Bool-cases, inl, inr, true, false, Option, Option-cases, none, some, List,
  [], ◌∷◌, ◌++◌, arith, find, update, Text, codes, text_eq, text_eq_refl, text_eq→eq, absent,
  split_max, join, split-join, partition-append, All,
}
use voclyp_dev.Accounts.{
  ApiKey, Accounts, underscore, comma, empty, with_prefix, both_there, key_prefix, shown,
  parse_api_key, has_key_id, valid_scope, valid_scopes, expires, expired, create_api_key, check_key,
  find_key, authenticate, revoke_api_key,
}

-- What a shown key or code splits into.
pub split-shown :
    (prefix id secret : Text)
    → absent underscore prefix ≡ true
    → absent underscore id ≡ true
    → split_max underscore 2 (shown prefix id secret) ≡ prefix ∷ id ∷ secret ∷ []
split-shown prefix id secret hp hi =
    rw
      (
        split_max,
        partition-append underscore prefix (id ++ underscore ∷ secret) hp,
        partition-append underscore id secret hi,
      )
      refl

parse-shown :
    (id secret : Text)
    → absent underscore id ≡ true
    → empty id ≡ false
    → empty secret ≡ false
    → parse_api_key (shown key_prefix id secret) ≡ some (id, secret)
unfolding parse_api_key with_prefix both_there
parse-shown id secret h hi hs =
    ap (λ parts. both_there (with_prefix key_prefix parts))
      (split-shown key_prefix id secret refl h)
    ∙ rw (hi, hs) refl

valid_scope-absent : (s : Text) → valid_scope s ≡ true → absent comma s ≡ true
valid_scope-absent s h = elim (Bool-cases (text_eq s (codes "ingest"))) [
  | inl e ↦ rw (text_eq→eq s (codes "ingest") e) refl
  | inr n ↦ elim (Bool-cases (text_eq s (codes "read"))) [
    | inl e ↦ rw (text_eq→eq s (codes "read") e) refl
    | inr n' ↦ rw (text_eq→eq s (codes "admin") (ground arith)) refl
  ]
]

valid_scopes-absent :
    (scopes : List Text) → valid_scopes scopes ≡ true → All (λ s. absent comma s ≡ true) scopes
valid_scopes-absent [] h = tt
valid_scopes-absent (s ∷ scopes) h =
    (valid_scope-absent s (ground arith), valid_scopes-absent scopes (ground arith))

found-new :
    (id : Text) (keys : List ApiKey) (row : ApiKey)
    → row.key_id ≡ id
    → find (has_key_id id) keys ≡ none
    → find (has_key_id id) (keys ++ row ∷ []) ≡ some row
found-new id [] row e h = rw (e, text_eq_refl id) refl
found-new id (k ∷ keys) row e h = ground (arith, found-new id keys row e)

revoked-found :
    (id : Text) (keys : List ApiKey) (k : ApiKey)
    → find (has_key_id id) (update (has_key_id id) (λ k. record k { revoked = true }) keys) ≡ some k
    → k.revoked ≡ true
revoked-found id [] k h = cc
revoked-found id (x ∷ keys) k h = ground (arith, revoked-found id keys k)

module _ (hash : Text → Text → Text) where
  revoked-refused :
      (now : ℕ) (id secret : Text) (o : Option ApiKey)
      → ((k : ApiKey) → o ≡ some k → k.revoked ≡ true)
      → check_key hash now id secret o ≡ none
  unfolding check_key
  revoked-refused now id secret none h = refl
  revoked-refused now id secret (some k) h = rw (h k refl) refl

  -- Once its id is revoked, a key that parses to that id is refused, whatever its secret.
  pub authenticate-revoked :
      (now : ℕ) (key id secret : Text) (a : Accounts)
      → parse_api_key key ≡ some (id, secret)
      → authenticate hash now key (revoke_api_key id a) ≡ none
  unfolding authenticate find_key revoke_api_key
  authenticate-revoked now key id secret a h =
      ap (λ p. find_key hash now p (revoke_api_key id a)) h
      ∙ revoked-refused now id secret _ (revoked-found id a.api_keys)

  module _ (now : ℕ) (id secret salt tenant s : Text) (scopes : List Text) (days : Option ℕ) where
    abbrev new_key : ApiKey
    new_key = record {
      key_id = id;
      key_hash = hash secret salt;
      salt = salt;
      tenant_id = tenant;
      scopes = join comma (s ∷ scopes);
      created_at = now;
      expires_at = expires now days;
      revoked = false;
    }

    checked :
        (later : ℕ)
        → valid_scopes (s ∷ scopes) ≡ true
        → expired later (expires now days) ≡ false
        → check_key hash later id secret (some new_key)
          ≡ some (record { tenant_id = tenant; scopes = s ∷ scopes; key_id = id })
    unfolding check_key
    checked later v live =
        rw (text_eq_refl (hash secret salt), live)
          (rw (split-join comma s scopes (valid_scopes-absent (s ∷ scopes) v)) refl)

    accepted :
        (later : ℕ) (a : Accounts)
        → absent underscore id ≡ true
        → empty id ≡ false
        → empty secret ≡ false
        → find (has_key_id id) a.api_keys ≡ none
        → valid_scopes (s ∷ scopes) ≡ true
        → expired later (expires now days) ≡ false
        → authenticate hash later
            (shown key_prefix id secret)
            (record a { api_keys = a.api_keys ++ new_key ∷ [] })
          ≡ some (record { tenant_id = tenant; scopes = s ∷ scopes; key_id = id })
    unfolding authenticate find_key
    accepted later a h hi hs new v live =
        ap (λ p. find_key hash later p (record a { api_keys = a.api_keys ++ new_key ∷ [] }))
          (parse-shown id secret h hi hs)
        ∙ ap (check_key hash later id secret) (found-new id a.api_keys new_key refl new)
        ∙ checked later v live

  -- A key that was just created for one scope or more, with an id that holds no underscore and an id
  -- and a secret that are not empty, is accepted until it expires, and stands for its tenant and its
  -- scopes.
  pub create_api_key-authenticate :
      (now later : ℕ) (id secret salt tenant s : Text) (scopes : List Text) (days : Option ℕ)
      (a a' : Accounts) (key : Text)
      → absent underscore id ≡ true
      → empty id ≡ false
      → empty secret ≡ false
      → create_api_key hash now id secret salt tenant (s ∷ scopes) days a ≡ some (a', key)
      → expired later (expires now days) ≡ false
      → authenticate hash later key a'
        ≡ some (record { tenant_id = tenant; scopes = s ∷ scopes; key_id = id })
  unfolding create_api_key
  create_api_key-authenticate now later id secret salt tenant s scopes days a a' key h hi hs made
        live =
      elim (Bool-cases (valid_scopes (s ∷ scopes))) [
        | inr bad ↦ absurd (cc (rw bad at made))
        | inl good ↦ elim (Option-cases (find (has_key_id id) a.api_keys)) [
          | inr (k, old) ↦ absurd (cc (rw (good, old) at made))
          | inl new ↦
              let made_of : Accounts × Text = (
                record a {
                  api_keys = a.api_keys ++ new_key now id secret salt tenant s scopes days ∷ [];
                },
                shown key_prefix id secret,
              ) in
              let result : some made_of ≡ some (a', key) = rw (good, new) at made in
              let same : ◌≡◌ {A = Accounts × Text} (a', key) made_of = cc in
              ap (λ (p : Accounts × Text). authenticate hash later p.1 p.0) same
              ∙ accepted now id secret salt tenant s scopes days later a h hi hs new good live
        ]
      ]
