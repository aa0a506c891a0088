-- ===== src/Accounts/Tests.antt =====
-- API keys and invites (voclyp/store.py) with one key and one invite. The hash here puts the salt
-- behind the secret.
use voclyp_dev.Prelude.{
  ◌+◌, ◌*◌, false, ◌≡◌, refl, arith, none, some, [], ◌∷◌, ◌++◌, Text, codes, join,
}
use voclyp_dev.Accounts.{
  Accounts, comma, shown, key_prefix, code_prefix, parse_api_key, create_api_key, authenticate,
  create_invite, consume_invite, with_prefix, both_there,
}
use voclyp_dev.Accounts.Keys.{create_api_key-authenticate}
use voclyp_dev.Accounts.Invites.{create_invite-consume_invite, consume_invite-once}

abbrev hash : Text → Text → Text
hash secret salt = secret ++ salt

abbrev no_accounts : Accounts
no_accounts = record { api_keys = []; invites = []; audits = [] }

abbrev tenant : Text
tenant = codes "t1"

abbrev key : Text
key = shown key_prefix (codes "ab12") (codes "s3")

abbrev code : Text
code = shown code_prefix (codes "cd34") (codes "s4")

abbrev with_key : Accounts
with_key = record no_accounts {
  api_keys =
      record {
        key_id = codes "ab12";
        key_hash = hash (codes "s3") (codes "77");
        salt = codes "77";
        tenant_id = tenant;
        scopes = join comma (codes "ingest" ∷ codes "read" ∷ []);
        created_at = 5;
        expires_at = some (5 + 1 * 86400);
        revoked = false;
      }
      ∷ [];
}

abbrev with_invite : Accounts
with_invite = record no_accounts {
  invites =
      record {
        invite_id = codes "cd34";
        code_hash = hash (codes "s4") (codes "77");
        salt = codes "77";
        tenant_id = tenant;
        role = "manager";
        created_by = codes "u1";
        expires_at = some (5 + 14 * 86400);
        used = false;
        created_at = 5;
      }
      ∷ [];
}

key_made :
    create_api_key hash 5
      (codes "ab12")
      (codes "s3")
      (codes "77")
      tenant
      (codes "ingest" ∷ codes "read" ∷ [])
      (some 1)
      no_accounts
    ≡ some (with_key, key)
unfolding create_api_key
key_made = refl

create_api_key-authenticate_example :
    authenticate hash 9 key with_key
    ≡ some (record {
      tenant_id = tenant;
      scopes = codes "ingest" ∷ codes "read" ∷ [];
      key_id = codes "ab12";
    })
create_api_key-authenticate_example =
    create_api_key-authenticate hash 5 9 (codes "ab12") (codes "s3") (codes "77") tenant
      (codes "ingest") (codes "read" ∷ []) (some 1) no_accounts with_key key refl refl refl key_made
      refl

key_parsed : parse_api_key key ≡ some (codes "ab12", codes "s3")
unfolding parse_api_key with_prefix both_there
key_parsed = refl

invite_made :
    create_invite hash 5
      (codes "cd34")
      (codes "s4")
      (codes "77")
      tenant
      "manager"
      (codes "u1")
      14
      no_accounts
    ≡ some (with_invite, code)
unfolding create_invite
invite_made = refl

accepted_once : (consume_invite hash 9 code tenant with_invite).1 ≡ some "manager"
accepted_once =
    create_invite-consume_invite hash 5 (codes "cd34") (codes "s4") (codes "77") tenant (codes "u1")
      "manager" 14 9 no_accounts with_invite code refl invite_made (omega arith)

consume_invite-once_example :
    (consume_invite hash 10 code tenant (consume_invite hash 9 code tenant with_invite).0).1 ≡ none
consume_invite-once_example =
    consume_invite-once hash 9 10 code tenant tenant with_invite "manager" accepted_once
