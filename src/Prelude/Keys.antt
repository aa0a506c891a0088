-- ===== src/Prelude/Keys.antt =====
-- Tables with a text as their primary key: what an update or a deletion by key does to a look-up.
use mathlib.Core.Option
use voclyp_dev.Prelude.Tests.{if◌then◌else◌, is_some, Bool-cases}
use voclyp_dev.Prelude.Lists.{All, All-append}
use voclyp_dev.Prelude.Rows.{find, update, delete, select}
use Prim.Native.String.{String}
use mathlib.Core.Path.{◌≡◌, refl, sym, ap, ◌∙◌}
use mathlib.Core.Bool.{Bool, true, false}
use mathlib.Core.Option.{Option, none, some}
use mathlib.Core.List.{List, [], ◌∷◌, ◌++◌}
use mathlib.Core.Logic.{◌≢◌, inl, inr}
use native.Mathlib.Omega.{arith}
use text.Mathlib.Text.{◌==◌ as str_eq}
use text.Mathlib.TextEquality.{eq_iff}

module _ {ℓ} {A : Type ℓ} where
  pub find-append :
      (p : A → Bool) (xs : List A) (x : A)
      → find p (xs ++ x ∷ [])
        ≡ (if is_some (find p xs) then find p xs else if p x then some x else none)
  find-append p [] x = ground arith
  find-append p (y ∷ xs) x = ground (arith, find-append p xs x)

  pub find-append_some :
      (p : A → Bool) (xs : List A) (x y : A) → find p xs ≡ some y → find p (xs ++ x ∷ []) ≡ some y
  find-append_some p xs x y h = find-append p xs x ∙ rw h refl

  pub find-append_none :
      (p : A → Bool) (xs : List A) (x : A)
      → find p xs ≡ none
      → p x ≡ true
      → find p (xs ++ x ∷ []) ≡ some x
  find-append_none p xs x h t = find-append p xs x ∙ rw (h, t) refl

module _ {ℓ} {A : Type ℓ} (key : A → String) where
  -- WHERE key = k
  abbrev pub with_key : String → A → Bool
  with_key k x = str_eq (key x) k

  -- Each row is the row of its key: the constraint PRIMARY KEY.
  abbrev pub Keyed : List A → Type ℓ
  Keyed xs = All (λ x. find (with_key (key x)) xs ≡ some x) xs

  pub find-update_by :
      (k j : String) (f : A → A) (xs : List A)
      → ((x : A) → key (f x) ≡ key x)
      → find (with_key j) (update (with_key k) f xs)
        ≡ (if str_eq k j then Option.map f (find (with_key j) xs) else find (with_key j) xs)
  find-update_by k j f [] h = ground arith
  find-update_by k j f (x ∷ xs) h =
      ground (arith, eq_iff k j, eq_iff (key x) k, eq_iff (key x) j, find-update_by k j f xs h, h x)

  pub find-delete_by :
      (k j : String) (xs : List A)
      → find (with_key j) (delete (with_key k) xs)
        ≡ (if str_eq k j then none else find (with_key j) xs)
  find-delete_by k j [] = ground arith
  find-delete_by k j (x ∷ xs) =
      ground (arith, eq_iff k j, eq_iff (key x) k, eq_iff (key x) j, find-delete_by k j xs)

  -- Where each of the rows is the row of its key in `ys`, a selection that leaves out the row of `k`
  -- holds no other row of that key.
  pub select-others :
      (k : String) (p : A → Bool) (xs ys : List A) (x : A)
      → All (λ y. find (with_key (key y)) ys ≡ some y) xs
      → find (with_key k) ys ≡ some x
      → p x ≡ false
      → All (λ y. key y ≢ k) (select p xs)
  select-others k p [] ys x h e n = tt
  select-others k p (y ∷ xs) ys x h e n = elim (Bool-cases (p y)) [
    | inr t ↦ rw t (select-others k p xs ys x h.1 e n)
    | inl t ↦ rw t (
      λ same.
          let found : some y ≡ some x = sym h.0 ∙ ap (λ j. find (with_key j) ys) same ∙ e in
          let equal : y ≡ x = cc in cc (ap p equal),
      select-others k p xs ys x h.1 e n,
    )
  ]

  -- A row with a new key keeps each row the row of its key.
  pub Keyed-weaken :
      (xs ys : List A) (x : A)
      → All (λ y. find (with_key (key y)) ys ≡ some y) xs
      → All (λ y. find (with_key (key y)) (ys ++ x ∷ []) ≡ some y) xs
  Keyed-weaken [] ys x h = tt
  Keyed-weaken (y ∷ xs) ys x h =
      (find-append_some (with_key (key y)) ys x y h.0, Keyed-weaken xs ys x h.1)

  pub Keyed-append :
      (xs : List A) (x : A) → find (with_key (key x)) xs ≡ none → Keyed xs → Keyed (xs ++ x ∷ [])
  Keyed-append xs x new h =
      All-append _ xs (x ∷ []) (Keyed-weaken xs xs x h)
        (find-append_none (with_key (key x)) xs x new ((eq_iff (key x) (key x)).1 refl), tt)
