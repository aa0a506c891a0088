-- ===== src/Prelude/Rows.antt =====
-- SQL tables as lists of rows in order of their row ids, and the statements the program runs on
-- them: SELECT with a WHERE clause, its first and last row, COUNT, UPDATE and DELETE.
use Prim.Native.Nat.{ℕ, zero, suc, ◌+◌, ◌≤◌}
use mathlib.Core.Path.{◌≡◌, refl, subst}
use mathlib.Core.Logic.{inl, inr}
use mathlib.Core.Bool.{Bool, true, false, ◌||◌}
use mathlib.Core.Option.{Option, none, some}
use mathlib.Core.List.{List, [], ◌∷◌, ◌++◌}
use native.Mathlib.Omega.{arith}
use voclyp_dev.Prelude.Tests.{leb, if◌then◌else◌, Bool-cases, Option-cases}
use voclyp_dev.Prelude.Lists.{length, take, All}

module _ {ℓ} {A : Type ℓ} where
  -- SELECT … WHERE p
  abbrev pub select : (A → Bool) → List A → List A
  select p [] = []
  select p (x ∷ xs) = let rest = select p xs in if p x then x ∷ rest else rest

  -- SELECT … WHERE p ORDER BY id LIMIT 1, and a SELECT by primary key
  abbrev pub find : (A → Bool) → List A → Option A
  find p [] = none
  find p (x ∷ xs) = let rest = find p xs in if p x then some x else rest

  abbrev or_else : Option A → Option A → Option A
  or_else none o = o
  or_else (some a) _ = some a

  -- SELECT … WHERE p ORDER BY id DESC LIMIT 1
  abbrev pub find_last : (A → Bool) → List A → Option A
  find_last p [] = none
  find_last p (x ∷ xs) = or_else (find_last p xs) (if p x then some x else none)

  -- SELECT COUNT(*) … WHERE p
  abbrev pub count : (A → Bool) → List A → ℕ
  count p [] = 0
  count p (x ∷ xs) = (if p x then 1 else 0) + count p xs

  -- UPDATE … SET f WHERE p
  abbrev pub update : (A → Bool) → (A → A) → List A → List A
  update p f [] = []
  update p f (x ∷ xs) = (if p x then f x else x) ∷ update p f xs

  -- DELETE … WHERE p
  abbrev pub delete : (A → Bool) → List A → List A
  delete p [] = []
  delete p (x ∷ xs) = let rest = delete p xs in if p x then rest else x ∷ rest

  -- any(p(x) for x in xs)
  abbrev pub any : (A → Bool) → List A → Bool
  any p [] = false
  any p (x ∷ xs) = p x || any p xs

  pub any-append : (p : A → Bool) (xs : List A) (x : A) → any p (xs ++ x ∷ []) ≡ (any p xs || p x)
  any-append p [] x = ground arith
  any-append p (y ∷ xs) x = ground (arith, any-append p xs x)

  pub any-update :
      (p q : A → Bool) (f : A → A) (xs : List A)
      → ((x : A) → p (f x) ≡ p x)
      → any p (update q f xs) ≡ any p xs
  any-update p q f [] h = refl
  any-update p q f (x ∷ xs) h = ground (arith, any-update p q f xs h, h x)

  pub any-weaken :
      (p q : A → Bool) (xs : List A)
      → ((x : A) → p x ≡ true → q x ≡ true)
      → any p xs ≡ true
      → any q xs ≡ true
  any-weaken p q [] h e = cc
  any-weaken p q (x ∷ xs) h e = ground (arith, any-weaken p q xs h, h x)

  pub length-update : (p : A → Bool) (f : A → A) (xs : List A) → length (update p f xs) ≡ length xs
  length-update p f [] = refl
  length-update p f (x ∷ xs) = omega (arith, length-update p f xs)

  pub find_last-append :
      (p : A → Bool) (xs : List A) (x : A)
      → find_last p (xs ++ x ∷ []) ≡ (if p x then some x else find_last p xs)
  find_last-append p [] x = ground arith
  find_last-append p (y ∷ xs) x = ground (arith, find_last-append p xs x)

  pub select-append :
      (p : A → Bool) (xs : List A) (x : A)
      → select p (xs ++ x ∷ []) ≡ (if p x then select p xs ++ x ∷ [] else select p xs)
  select-append p [] x = ground arith
  select-append p (y ∷ xs) x = ground (arith, select-append p xs x)

  pub count-delete : (p q : A → Bool) (xs : List A) → count p (delete q xs) ≤ count p xs
  count-delete p q [] = omega arith
  count-delete p q (x ∷ xs) = ground (arith, count-delete p q xs)

  pub count-delete_self : (p : A → Bool) (xs : List A) → count p (delete p xs) ≡ 0
  count-delete_self p [] = refl
  count-delete_self p (x ∷ xs) = ground (arith, count-delete_self p xs)

  pub find-holds : (p : A → Bool) (xs : List A) {x : A} → find p xs ≡ some x → p x ≡ true
  find-holds p [] h = cc
  find-holds p (y ∷ xs) {x} h = ground (arith, find-holds p xs {x = x})

  pub select-All : (p : A → Bool) (xs : List A) → All (λ x. p x ≡ true) (select p xs)
  select-All p [] = tt
  select-All p (x ∷ xs) = ground (arith, select-All p xs)

module _ {ℓ κ} {A : Type ℓ} where
  -- An update keeps a property of all rows if it keeps it on the rows that it changes.
  pub All-update :
      (P : A → Type κ) (p : A → Bool) (f : A → A) (xs : List A)
      → ((x : A) → p x ≡ true → P x → P (f x))
      → All P xs
      → All P (update p f xs)
  All-update P p f [] k h = tt
  All-update P p f (x ∷ xs) k h = (kept (p x) refl, All-update P p f xs k h.1)
    where
      kept : (b : Bool) → p x ≡ b → P (if b then f x else x)
      kept true e = k x e h.0
      kept false e = h.0

  pub All-find :
      (P : A → Type κ) (p : A → Bool) (xs : List A) {x : A} → All P xs → find p xs ≡ some x → P x
  All-find P p [] h e = cc
  All-find P p (y ∷ xs) {x} h e = elim (Bool-cases (p y)) [
    | inl t ↦ subst P (ground arith) h.0
    | inr t ↦ All-find P p xs h.1 (ground arith)
  ]

  pub All-find_last :
      (P : A → Type κ) (p : A → Bool) (xs : List A) {x : A}
      → All P xs
      → find_last p xs ≡ some x
      → P x
  All-find_last P p [] h e = cc
  All-find_last P p (y ∷ xs) {x} h e = elim (Option-cases (find_last p xs)) [
    | inl e' ↦ subst P (ground arith) h.0
    | inr (z, e') ↦ All-find_last P p xs h.1 (ground arith)
  ]

  pub All-delete : (P : A → Type κ) (p : A → Bool) (xs : List A) → All P xs → All P (delete p xs)
  All-delete P p [] h = tt
  All-delete P p (x ∷ xs) h = kept (p x) (All-delete P p xs h.1)
    where
      kept : (b : Bool) → All P (delete p xs) → All P (if b then delete p xs else x ∷ delete p xs)
      kept true k = k
      kept false k = (h.0, k)

  pub All-select : (P : A → Type κ) (p : A → Bool) (xs : List A) → All P xs → All P (select p xs)
  All-select P p [] h = tt
  All-select P p (x ∷ xs) h = kept (p x) (All-select P p xs h.1)
    where
      kept : (b : Bool) → All P (select p xs) → All P (if b then x ∷ select p xs else select p xs)
      kept true k = (h.0, k)
      kept false k = k

module _ {ℓ} {A : Type ℓ} (key : A → ℕ) where
  abbrev insert_by : A → List A → List A
  insert_by x [] = x ∷ []
  insert_by x (y ∷ ys) = if leb (key x) (key y) then x ∷ y ∷ ys else y ∷ insert_by x ys

  -- … ORDER BY key, rows with one key in order of their row ids
  abbrev pub order_by : List A → List A
  order_by [] = []
  order_by (x ∷ xs) = insert_by x (order_by xs)

  abbrev insert_desc : A → List A → List A
  insert_desc x [] = x ∷ []
  insert_desc x (y ∷ ys) = if leb (key y) (key x) then x ∷ y ∷ ys else y ∷ insert_desc x ys

  -- … ORDER BY key DESC, rows with one key in order of their row ids
  abbrev pub order_desc : List A → List A
  order_desc [] = []
  order_desc (x ∷ xs) = insert_desc x (order_desc xs)

  length-insert_desc : (x : A) (xs : List A) → length (insert_desc x xs) ≡ length xs + 1
  length-insert_desc x [] = refl
  length-insert_desc x (y ∷ ys) = ground (arith, length-insert_desc x ys)

  pub length-order_desc : (xs : List A) → length (order_desc xs) ≡ length xs
  length-order_desc [] = refl
  length-order_desc (x ∷ xs) =
      omega (arith, length-insert_desc x (order_desc xs), length-order_desc xs)

  any-insert_desc :
      (p : A → Bool) (x : A) (xs : List A) → any p (insert_desc x xs) ≡ (p x || any p xs)
  any-insert_desc p x [] = refl
  any-insert_desc p x (y ∷ ys) = ground (arith, any-insert_desc p x ys)

  pub any-order_desc : (p : A → Bool) (xs : List A) → any p (order_desc xs) ≡ any p xs
  any-order_desc p [] = refl
  any-order_desc p (x ∷ xs) =
      ground (arith, any-insert_desc p x (order_desc xs), any-order_desc p xs)

  insert_by-append :
      (y : A) (zs : List A) (x : A)
      → key y ≤ key x
      → insert_by y (zs ++ x ∷ []) ≡ insert_by y zs ++ x ∷ []
  insert_by-append y [] x h = ground arith
  insert_by-append y (z ∷ zs) x h = ground (arith, insert_by-append y zs x h)

  -- A row whose key is not below the others' stands last.
  pub order_by-append :
      (xs : List A) (x : A)
      → All (λ y. key y ≤ key x) xs
      → order_by (xs ++ x ∷ []) ≡ order_by xs ++ x ∷ []
  order_by-append [] x h = refl
  order_by-append (y ∷ xs) x h =
      rw (order_by-append xs x h.1) (insert_by-append y (order_by xs) x h.0)

module _ {ℓ κ} {A : Type ℓ} (P : A → Type κ) where
  All-insert_by : (key : A → ℕ) (x : A) (xs : List A) → P x → All P xs → All P (insert_by key x xs)
  All-insert_by key x [] p h = (p, tt)
  All-insert_by key x (y ∷ ys) p h = kept (leb (key x) (key y)) (All-insert_by key x ys p h.1)
    where
      kept :
          (b : Bool)
          → All P (insert_by key x ys)
          → All P (if b then x ∷ y ∷ ys else y ∷ insert_by key x ys)
      kept true k = (p, h)
      kept false k = (h.0, k)

  pub All-order_by : (key : A → ℕ) (xs : List A) → All P xs → All P (order_by key xs)
  All-order_by key [] h = tt
  All-order_by key (x ∷ xs) h = All-insert_by key x (order_by key xs) h.0 (All-order_by key xs h.1)

  pub All-take : (n : ℕ) (xs : List A) → All P xs → All P (take n xs)
  All-take zero xs h = tt
  All-take (suc n) [] h = tt
  All-take (suc n) (x ∷ xs) h = (h.0, All-take n xs h.1)
