-- ===== src/Users/Login.antt =====
-- A user who was created can log in (voclyp/store.py, `create_user` and `verify_user_password`).
use voclyp_dev.Prelude.{
  ℕ, String, ◌≡◌, refl, sym, ◌∙◌, inl, inr, Bool-cases, Option-cases, true, none, some, [], ◌∷◌,
  ◌++◌, arith, if◌then◌else◌, find, subst, Text, text_eq, text_eq_iff,
}
use voclyp_dev.Prelude.Keys.{find-append_none}
use voclyp_dev.Users.{
  User, Directory, Library, created, public_of, folded, has_email, get_user_by_email, insert_user,
  create_user, check_password, verify_user_password,
}

module _ (py : Library) (now : ℕ) (user_id : String) (salt email name : Text)
    (role tenant_id : String) (password : Text) where
  abbrev pub row : User
  row = record {
    user_id = user_id;
    email = folded py email;
    name = py.strip name;
    role = role;
    tenant_id = tenant_id;
    key_hash = py.hash password salt;
    salt = salt;
    created_at = now;
    session_epoch = 0;
  }

  module _ (d d' : Directory) (id : String)
      (folds : (t : Text) → folded py (folded py t) ≡ folded py t) where
    -- What `create_user` did when it returned.
    create_user-inserted :
        create_user py now user_id salt email name role tenant_id password d ≡ created d' id
        → (get_user_by_email py (folded py email) d ≡ none)
          × (d' ≡ record d { users = d.users ++ row ∷ [] })
          × (id ≡ user_id)
    unfolding create_user insert_user
    create_user-inserted h = elim (Option-cases (get_user_by_email py (folded py email) d)) [
      | inl free ↦ ground (arith, free)
      | inr (x, taken) ↦ ground (arith, taken)
    ]

    -- An account that was just created is entered with its password under every spelling of its email
    -- that folds to the stored one, where folding twice is folding once; another password enters it
    -- only if it has the same hash. The user has the role and the tenant that were given.
    pub create_user-verify_user_password :
        create_user py now user_id salt email name role tenant_id password d ≡ created d' id
        → (spelling tried : Text) → folded py spelling ≡ folded py email
        → verify_user_password py spelling tried d' ≡ (
            if text_eq (py.hash tried salt) (py.hash password salt)
            then some (public_of (record row { user_id = id }))
            else none)
    unfolding verify_user_password get_user_by_email check_password
    create_user-verify_user_password h spelling tried same =
        let (free, made, own) = create_user-inserted h in
        let unique : find (has_email py spelling) d.users ≡ none =
          subst (λ e. find (λ (u : User). text_eq u.email e) d.users ≡ none)
            (folds email ∙ sym same) free in
        let own_email : has_email py spelling row ≡ true =
          (text_eq_iff (folded py email) (folded py spelling)).1 (sym same) in
        let found : find (has_email py spelling) d'.users ≡ some row =
          rw made (find-append_none (has_email py spelling) d.users row unique own_email) in
        elim (Bool-cases (text_eq (py.hash tried salt) (py.hash password salt))) [
          | inl right ↦ rw (found, right, own) refl
          | inr wrong ↦ rw (found, wrong) refl
        ]
