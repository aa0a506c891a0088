-- ===== src/Stores.antt =====
-- The stores, areas and role scopes of voclyp/store.py: tables with the constraint of a primary key,
-- in order of their row ids. Clock times are numbers in the order of their ISO texts; names are
-- ordered by an argument, their place in the order of texts.
mod Tests
pub mod Scopes
use voclyp_dev.Prelude.{
  ℕ, String, Bool, true, false, not, ◌&&◌, ◌||◌, Option, none, some, List, [], ◌∷◌, ◌++◌,
  if◌then◌else◌, is_some, find, select, update, delete, order_by, map, str_eq, Text, split, join,
}

-- a row of `stores`
pub record Store : Type 0 where
  pub tenant_id : String
  pub store_id : String
  pub name : String
  pub area_id : String
  pub region : Option String
  pub address_lat : Option ℕ
  pub address_lng : Option ℕ
  pub address_full : Option String
  pub manager_id : String
  pub team_size : Option ℕ
  pub created_at : ℕ
  pub updated_at : ℕ
  pub status : String

-- a row of `areas`
pub record Area : Type 0 where
  pub tenant_id : String
  pub area_id : String
  pub name : String
  pub manager_id : String
  pub region : Option String
  pub created_at : ℕ

-- a row of `role_scopes`
pub record Scope : Type 0 where
  pub tenant_id : String
  pub user_id : String
  pub role : String
  pub area_id : Option String
  pub store_ids : Option Text

pub record Places : Type 0 where
  pub stores : List Store
  pub areas : List Area
  pub scopes : List Scope

abbrev pub is_store : String → String → Store → Bool
is_store tenant_id store_id s = str_eq s.tenant_id tenant_id && str_eq s.store_id store_id

abbrev pub is_area : String → String → Area → Bool
is_area tenant_id area_id a = str_eq a.tenant_id tenant_id && str_eq a.area_id area_id

abbrev pub is_scope : String → String → Scope → Bool
is_scope tenant_id user_id s = str_eq s.tenant_id tenant_id && str_eq s.user_id user_id

-- an optional argument that is left out, or empty, filters nothing
abbrev asked : String → String → Bool
asked wanted value = str_eq wanted "" || str_eq value wanted

-- `create_store`: False is the IntegrityError of a store that is there
pub create_store : ℕ → Store → Places → Bool × Places
create_store now s p =
    let row = record s { created_at = now; updated_at = now; status = "active" } in
    if is_some (find (is_store s.tenant_id s.store_id) p.stores)
    then (false, p)
    else (true, record p { stores = p.stores ++ row ∷ [] })

pub get_store : String → String → Places → Option Store
get_store tenant_id store_id p = find (is_store tenant_id store_id) p.stores

-- `list_stores(tenant_id, area_id, status)`
pub list_stores : (String → ℕ) → String → String → String → Places → List Store
list_stores place tenant_id area_id status p =
    order_by (λ s. place s.name)
      (select
        (λ s. str_eq s.tenant_id tenant_id && asked status s.status && asked area_id s.area_id)
        p.stores)

pub update_store_status : ℕ → String → String → String → Places → Places
update_store_status now tenant_id store_id status p = record p {
  stores =
      update (is_store tenant_id store_id) (λ s. record s { status = status; updated_at = now })
        p.stores;
}

pub create_area : ℕ → Area → Places → Bool × Places
create_area now a p =
    if is_some (find (is_area a.tenant_id a.area_id) p.areas)
    then (false, p)
    else (true, record p { areas = p.areas ++ record a { created_at = now } ∷ [] })

pub get_area : String → String → Places → Option Area
get_area tenant_id area_id p = find (is_area tenant_id area_id) p.areas

-- `list_areas(tenant_id, manager_id)`
pub list_areas : (String → ℕ) → String → String → Places → List Area
list_areas place tenant_id manager_id p =
    order_by (λ a. place a.name)
      (select (λ a. str_eq a.tenant_id tenant_id && asked manager_id a.manager_id) p.areas)

-- `",".join(store_ids) if store_ids else None`
abbrev joined : List Text → Option Text
joined [] = none
joined (s ∷ store_ids) = some (join 44 (s ∷ store_ids))

-- `row[2].split(",") if row[2] else []`
abbrev pub ids_of : Option Text → List Text
ids_of none = []
ids_of (some []) = []
ids_of (some (c ∷ s)) = split 44 (c ∷ s)

-- `set_user_role_scope`: INSERT OR REPLACE
unfoldable pub set_user_role_scope :
    String → String → String → Option String → List Text → Places → Places
set_user_role_scope tenant_id user_id role area_id store_ids p =
    let row : Scope = record {
      tenant_id = tenant_id;
      user_id = user_id;
      role = role;
      area_id = area_id;
      store_ids = joined store_ids;
    } in
    record p { scopes = delete (is_scope tenant_id user_id) p.scopes ++ row ∷ [] }

-- what `get_user_role_scope` returns
pub record RoleScope : Type 0 where
  pub role : String
  pub area_id : Option String
  pub store_ids : List Text

unfoldable pub get_user_role_scope : String → String → Places → Option RoleScope
get_user_role_scope tenant_id user_id p = elim (find (is_scope tenant_id user_id) p.scopes) [
  | none ↦ none
  | some s ↦ some (record { role = s.role; area_id = s.area_id; store_ids = ids_of s.store_ids })
]

-- `get_manager_stores(tenant_id, manager_id)`
pub get_manager_stores : String → String → Places → List Store
get_manager_stores tenant_id manager_id p =
    select
      (λ s.
        str_eq s.tenant_id tenant_id && str_eq s.manager_id manager_id && str_eq s.status "active")
      p.stores
