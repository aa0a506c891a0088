-- ===== src/Stores/Scopes.antt =====
-- A user's role scope is read as it was set (voclyp/store.py).
use voclyp_dev.Prelude.{
  ◌≡◌, ◌≢◌, refl, sym, ◌∙◌, ap, String, Bool, true, Option, none, some, List, [], ◌∷◌, arith, find,
  delete, eq_iff, All, Text, absent, split, split-join, join,
}
use voclyp_dev.Prelude.Keys.{find-append_none}
use voclyp_dev.Stores.{
  Scope, Places, is_scope, ids_of, joined, set_user_role_scope, get_user_role_scope,
}

-- The ids hold no comma, and no single id is empty.
abbrev pub IsListable : List Text → Type 0
IsListable [] = Unit
IsListable (s ∷ ids) = All (λ t. absent 44 t ≡ true) (s ∷ ids) × (join 44 (s ∷ ids) ≢ [])

ids_of-joined : (ids : List Text) → IsListable ids → ids_of (joined ids) ≡ ids
ids_of-joined [] h = refl
ids_of-joined (s ∷ ids) h = after (join 44 (s ∷ ids)) refl
  where
    after : (t : Text) → join 44 (s ∷ ids) ≡ t → ids_of (some t) ≡ s ∷ ids
    after [] e = absurd (h.1 e)
    after (c ∷ t) e = ap (split 44) (sym e) ∙ split-join 44 s ids h.0

find-deleted {ℓ} : {A : Type ℓ} (p : A → Bool) (xs : List A) → find p (delete p xs) ≡ none
find-deleted p [] = refl
find-deleted p (x ∷ xs) = ground (arith, find-deleted p xs)

-- The scope that was set last for a user is read back with its role, its area and its stores, where
-- the ids of the stores hold no comma and are not one empty text.
pub set_user_role_scope-get :
    (t u role : String) (area_id : Option String) (ids : List Text) (p : Places)
    → IsListable ids
    → get_user_role_scope t u (set_user_role_scope t u role area_id ids p)
      ≡ some (record { role = role; area_id = area_id; store_ids = ids })
unfolding set_user_role_scope get_user_role_scope
set_user_role_scope-get t u role area_id ids p h =
    let row : Scope = record {
      tenant_id = t;
      user_id = u;
      role = role;
      area_id = area_id;
      store_ids = joined ids;
    } in
    let own : is_scope t u row ≡ true = rw ((eq_iff t t).1 refl, (eq_iff u u).1 refl) refl in
    rw
      (
        get_user_role_scope,
        find-append_none (is_scope t u) (delete (is_scope t u) p.scopes) row
            (find-deleted (is_scope t u) p.scopes) own,
        ids_of-joined ids h,
      )
      refl
