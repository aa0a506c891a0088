-- ===== src/Stores/Tests.antt =====
-- The role scope of an area manager (voclyp/store.py).
use voclyp_dev.Prelude.{◌≡◌, refl, false, none, some, List, [], ◌∷◌, Text, codes}
use voclyp_dev.Stores.{Store, Places, create_store, set_user_role_scope, get_user_role_scope}
use voclyp_dev.Stores.Scopes.{set_user_role_scope-get}

abbrev store : Store
store = record {
  tenant_id = "t1";
  store_id = "s1";
  name = "Main";
  area_id = "north";
  region = none;
  address_lat = none;
  address_lng = none;
  address_full = none;
  manager_id = "u1";
  team_size = none;
  created_at = 1;
  updated_at = 1;
  status = "active";
}

abbrev places : Places
places = record { stores = store ∷ []; areas = []; scopes = [] }

taken : create_store 5 store places ≡ (false, places)
unfolding create_store
taken = refl

abbrev ids : List Text
ids = codes "s1" ∷ codes "s2" ∷ []

scope_read_back :
    get_user_role_scope "t1" "u1" (set_user_role_scope "t1" "u1" "area_manager" none ids places)
    ≡ some (record { role = "area_manager"; area_id = none; store_ids = ids })
scope_read_back =
    set_user_role_scope-get "t1" "u1" "area_manager" none ids places
      ((refl, (refl, tt)), (λ h. cc h))
