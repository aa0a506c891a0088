-- ===== src/Users/Tests.antt =====
-- One console user (voclyp/store.py). The hash here puts the salt behind the secret.
use voclyp_dev.Prelude.{◌≡◌, refl, some, [], ◌∷◌, ◌++◌, codes, ◌==◌}
use voclyp_dev.Users.{
  User, Directory, Library, public_of, created, refused, password_too_short, invalid_email,
  create_user, verify_user_password, is_email, get_user_by_email, insert_user,
}
use voclyp_dev.Users.Login.{row, create_user-verify_user_password}

abbrev library : Library
library = record {
  strip = λ t. t;
  lower = λ t. t;
  is_space = λ c. c == 32;
  hash = λ secret salt. secret ++ salt;
}

abbrev nobody : Directory
nobody = record { users = []; voiceprints = []; audits = [] }

abbrev user : User
user =
    row library 5 "u1" (codes "77") (codes "a@b.in") (codes "Asha") "sales" "t1" (codes "password")

creates :
    create_user library 5 "u1"
      (codes "77")
      (codes "a@b.in")
      (codes "Asha")
      "sales"
      "t1"
      (codes "password")
      nobody
    ≡ created (record nobody { users = user ∷ [] }) "u1"
unfolding create_user is_email get_user_by_email insert_user
creates = refl

refuses_short :
    create_user library 5 "u1"
      (codes "77")
      (codes "a@b.in")
      (codes "Asha")
      "sales"
      "t1"
      (codes "secret")
      nobody
    ≡ refused password_too_short
unfolding create_user is_email
refuses_short = refl

refuses_no_domain :
    create_user library 5 "u1"
      (codes "77")
      (codes "a@b.")
      (codes "Asha")
      "sales"
      "t1"
      (codes "password")
      nobody
    ≡ refused invalid_email
unfolding create_user is_email
refuses_no_domain = refl

create_user-verify_user_password_example :
    verify_user_password library
      (codes "a@b.in")
      (codes "password")
      (record nobody { users = user ∷ [] })
    ≡ some (public_of user)
create_user-verify_user_password_example =
    create_user-verify_user_password library 5 "u1" (codes "77") (codes "a@b.in") (codes "Asha")
      "sales" "t1" (codes "password") nobody (record nobody { users = user ∷ [] }) "u1" (λ t. refl)
      creates (codes "a@b.in") (codes "password") refl
