-- ===== src/Users/Epochs.antt =====
-- Session epochs (voclyp/store.py, `bump_session_epoch`).
use mathlib.Core.Option
use voclyp_dev.Prelude.{◌+◌, String, ◌≡◌, refl, arith, if◌then◌else◌, str_eq}
use voclyp_dev.Prelude.Keys.{find-update_by}
use voclyp_dev.Users.{User, Directory, Public, get_user, bump_session_epoch, public_of_found}

-- A user's sessions are counted up, and no one else's.
pub get_user-bump_session_epoch :
    (k id : String) (d : Directory)
    → get_user id (bump_session_epoch k d) ≡ (
        if str_eq k id
        then Option.map
            (λ (u : Public). record u { session_epoch = u.session_epoch + 1 })
            (get_user id d)
        else get_user id d)
unfolding get_user bump_session_epoch public_of_found
get_user-bump_session_epoch k id d = ground (
  arith,
  find-update_by User.user_id k id (λ u. record u { session_epoch = u.session_epoch + 1 }) d.users
      (λ u. refl),
)
