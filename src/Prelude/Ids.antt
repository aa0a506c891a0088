-- ===== src/Prelude/Ids.antt =====
-- Tables keyed by an AUTOINCREMENT column: row ids ascend, and none is above the last id given out.
use mathlib.Core.Option
use voclyp_dev.Prelude.Tests.{◌==◌, Bool-cases, Option-cases, ==_iff}
use voclyp_dev.Prelude.Lists.{All, All-weaken}
use voclyp_dev.Prelude.Rows.{find, find_last, update, All-find, All-find_last}
use Prim.Native.Nat.{ℕ, ◌≤◌, ◌<◌}
use mathlib.Core.Path.{◌≡◌, refl, sym, ap, subst}
use mathlib.Core.Logic.{◌≢◌, inl, inr}
use mathlib.Core.Bool.{Bool, true}
use mathlib.Core.Option.{Option, none, some}
use mathlib.Core.List.{List, [], ◌∷◌, ◌++◌}
use native.Mathlib.Omega.{arith}

module _ {ℓ} {A : Type ℓ} (id : A → ℕ) where
  -- The ids of the rows ascend, above `lo` and up to `hi`.
  abbrev pub Ascending : ℕ → List A → ℕ → Type 0
  Ascending lo [] hi = lo ≤ hi
  Ascending lo (x ∷ xs) hi = (lo < id x) × Ascending (id x) xs hi

  pub Ascending-append :
      (lo hi : ℕ) (xs : List A) (x : A)
      → Ascending lo xs hi
      → hi < id x
      → Ascending lo (xs ++ x ∷ []) (id x)
  Ascending-append lo hi [] x h k = omega arith
  Ascending-append lo hi (y ∷ xs) x h k = (h.0, Ascending-append (id y) hi xs x h.1 k)

  pub Ascending-update :
      (lo hi : ℕ) (p : A → Bool) (f : A → A) (xs : List A)
      → ((x : A) → id (f x) ≡ id x)
      → Ascending lo xs hi
      → Ascending lo (update p f xs) hi
  Ascending-update lo hi p f [] k h = h
  Ascending-update lo hi p f (x ∷ xs) k h =
      let rest = Ascending-update (id x) hi p f xs k h.1 in
      elim (Bool-cases (p x)) [ inl t ↦ rw (t, k x) (h.0, rest) | inr t ↦ rw t (h.0, rest) ]

  pub Ascending-weaken :
      (lo lo' hi : ℕ) (xs : List A) → lo' ≤ lo → Ascending lo xs hi → Ascending lo' xs hi
  Ascending-weaken lo lo' hi [] h k = omega arith
  Ascending-weaken lo lo' hi (x ∷ xs) h k = (omega arith, k.1)

  -- Every id in the table lies above `lo`.
  pub Ascending-All : (lo hi : ℕ) (xs : List A) → Ascending lo xs hi → All (λ x. lo < id x) xs
  Ascending-All lo hi [] h = tt
  Ascending-All lo hi (x ∷ xs) h =
      (h.0, Ascending-All lo hi xs (Ascending-weaken (id x) lo hi xs (omega arith) h.1))

  pub find-update_self :
      (k : ℕ) (f : A → A) (xs : List A)
      → ((x : A) → id (f x) ≡ id x)
      → find (λ x. id x == k) (update (λ x. id x == k) f xs)
        ≡ Option.map f (find (λ x. id x == k) xs)
  find-update_self k f [] h = refl
  find-update_self k f (x ∷ xs) h = ground (arith, find-update_self k f xs h, h x)

  pub find-update_ne :
      (j k : ℕ) (f : A → A) (xs : List A)
      → j ≢ k
      → ((x : A) → id (f x) ≡ id x)
      → find (λ x. id x == j) (update (λ x. id x == k) f xs) ≡ find (λ x. id x == j) xs
  find-update_ne j k f [] n h = refl
  find-update_ne j k f (x ∷ xs) n h = ground (arith, find-update_ne j k f xs n h, h x)

  -- An update by an id below all ids of the table changes nothing.
  pub update_above :
      (k hi : ℕ) (f : A → A) (xs : List A) → Ascending k xs hi → update (λ x. id x == k) f xs ≡ xs
  update_above k hi f [] h = refl
  update_above k hi f (x ∷ xs) h =
      ground (arith, update_above k hi f xs (Ascending-weaken (id x) k hi xs (omega arith) h.1))

  find-above :
      (lo hi : ℕ) (p : A → Bool) (xs : List A) {r : A}
      → Ascending lo xs hi
      → find p xs ≡ some r
      → lo < id r
  find-above lo hi p xs h e = All-find (λ x. lo < id x) p xs (Ascending-All lo hi xs h) e

  find_last-above :
      (lo hi : ℕ) (p : A → Bool) (xs : List A) {r : A}
      → Ascending lo xs hi
      → find_last p xs ≡ some r
      → lo < id r
  find_last-above lo hi p xs h e = All-find_last (λ x. lo < id x) p xs (Ascending-All lo hi xs h) e

  -- The row that a query finds is the row of its id.
  pub find-id :
      (lo hi : ℕ) (p : A → Bool) (xs : List A) {r : A}
      → Ascending lo xs hi
      → find p xs ≡ some r
      → find (λ x. id x == id r) xs ≡ some r
  find-id lo hi p [] h e = cc
  find-id lo hi p (x ∷ xs) {r} h e = elim (Bool-cases (p x)) [
    | inl t ↦ let same : x ≡ r = ground arith in ground (arith, ap id same)
    | inr t ↦
        let rest : find p xs ≡ some r = ground arith in
        let above = find-above (id x) hi p xs h.1 rest in
        ground (arith, find-id (id x) hi p xs h.1 rest)
  ]

  pub find_last-id :
      (lo hi : ℕ) (p : A → Bool) (xs : List A) {r : A}
      → Ascending lo xs hi
      → find_last p xs ≡ some r
      → find (λ x. id x == id r) xs ≡ some r
  find_last-id lo hi p [] h e = cc
  find_last-id lo hi p (x ∷ xs) {r} h e = elim (Option-cases (find_last p xs)) [
    | inl e' ↦ let same : x ≡ r = ground arith in ground (arith, ap id same)
    | inr (y, e') ↦
        let rest : find_last p xs ≡ some r = ground arith in
        let above = find_last-above (id x) hi p xs h.1 rest in
        ground (arith, find_last-id (id x) hi p xs h.1 rest)
  ]

  -- The first row that a query finds has the least id of those that fit.
  pub find-least :
      (lo hi : ℕ) (p : A → Bool) (xs : List A) {r : A}
      → Ascending lo xs hi
      → find p xs ≡ some r
      → All (λ x. p x ≡ true → id r ≤ id x) xs
  find-least lo hi p [] h e = tt
  find-least lo hi p (x ∷ xs) {r} h e = elim (Bool-cases (p x)) [
    | inl t ↦
        let same : x ≡ r = ground arith in
        subst (λ y. All (λ x. p x ≡ true → id y ≤ id x) (x ∷ xs)) same
          (λ _. omega arith, All-weaken xs (λ y q _. omega arith) (Ascending-All (id x) hi xs h.1))
    | inr t ↦ (λ t'. cc, find-least (id x) hi p xs h.1 (ground arith))
  ]

module _ {ℓ κ} {A : Type ℓ} (P : A → Type κ) (id : A → ℕ) where
  -- An update by id keeps a property of all rows if the row of that id has it afterwards.
  pub All-update_at :
      (k lo hi : ℕ) (f : A → A) (xs : List A) {r : A}
      → Ascending id lo xs hi
      → find (λ x. id x == k) xs ≡ some r
      → P (f r)
      → All P xs
      → All P (update (λ x. id x == k) f xs)
  All-update_at k lo hi f [] h e q a = tt
  All-update_at k lo hi f (x ∷ xs) {r} h e q a = elim (Bool-cases (id x == k)) [
    | inl t ↦
        let same : x ≡ r = ground arith in
        rw (t, update_above id k hi f xs (rw ((==_iff (id x) k).0 t) at h.1))
          (subst (λ y. P (f y)) (sym same) q, a.1)
    | inr t ↦ rw t (a.0, All-update_at k (id x) hi f xs h.1 (ground arith) q a.1)
  ]

module _ {ℓ} {A : Type ℓ} (id : A → ℕ) where
  -- Each row is the row of its id.
  pub find_own-All :
      (lo hi : ℕ) (xs : List A)
      → Ascending id lo xs hi
      → All (λ r. find (λ x. id x == id r) xs ≡ some r) xs
  find_own-All lo hi [] h = tt
  find_own-All lo hi (x ∷ xs) h = (
    ground arith,
    found_behind xs (Ascending-All id (id x) hi xs h.1) (find_own-All (id x) hi xs h.1),
  )
    where
      found_behind :
          (ys : List A)
          → All (λ r. id x < id r) ys
          → All (λ r. find (λ y. id y == id r) xs ≡ some r) ys
          → All (λ r. find (λ y. id y == id r) (x ∷ xs) ≡ some r) ys
      found_behind [] a f = tt
      found_behind (y ∷ ys) a f = (ground arith, found_behind ys a.1 f.1)
