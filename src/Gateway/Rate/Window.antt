-- ===== src/Gateway/Rate/Window.antt =====
-- No window of time holds more requests of a key than the limit (voclyp/gateway/app.py,
-- `_rate_limit`).
use voclyp_dev.Prelude.{
  ℕ, ◌+◌, ◌≤◌, ◌≡◌, refl, sym, ◌∙◌, inl, inr, Bool, Bool-cases, ◌&&◌, List, [], ◌∷◌, ◌++◌, arith,
  if◌then◌else◌, ltb, leb, length, select, count,
}
use voclyp_dev.Gateway.Rate.{recent, enter, requests}

-- The requests of the window that begins with one of them and covers the time x.
abbrev pub in_window : ℕ → ℕ → ℕ → Bool
in_window window x t = leb t x && ltb x (t + window)

-- Times that do not step back.
abbrev pub Forward : ℕ → List ℕ → Type 0
Forward lo [] = 0 ≤ lo
Forward lo (t ∷ times) = (lo ≤ t) × Forward t times

count-append_one :
    (p : ℕ → Bool) (xs : List ℕ) (x : ℕ)
    → count p (xs ++ x ∷ []) ≡ count p xs + (if p x then 1 else 0)
count-append_one p [] x = ground arith
count-append_one p (y ∷ xs) x = ground (arith, count-append_one p xs x)

count-le_length : (p : ℕ → Bool) (xs : List ℕ) → count p xs ≤ length xs
count-le_length p [] = omega arith
count-le_length p (y ∷ xs) = ground (arith, count-le_length p xs)

-- What is dropped from the bucket is in no later window.
count-kept :
    (window now x : ℕ) (xs : List ℕ)
    → now ≤ x
    → count (in_window window x) (select (recent window now) xs) ≡ count (in_window window x) xs
count-kept window now x [] h = refl
count-kept window now x (t ∷ xs) h = ground (arith, count-kept window now x xs h)

-- The bucket counts what was let through, in every window from `now` on; no window is too full.
record Counted (window limit now : ℕ) (bucket passed : List ℕ) : Type 0 where
  same : (x : ℕ) → now ≤ x → count (in_window window x) passed ≡ count (in_window window x) bucket
  bounded : (x : ℕ) → count (in_window window x) passed ≤ limit

module _ (window limit : ℕ) where
  Counted-enter :
      (last now : ℕ) (bucket passed : List ℕ)
      → last ≤ now
      → Counted window limit last bucket passed
      → let (bucket', through) = enter window limit now bucket in
        Counted window limit now bucket' (if through then passed ++ now ∷ [] else passed)
  unfolding enter
  Counted-enter last now bucket passed h c =
      elim (Bool-cases (leb limit (length (select (recent window now) bucket)))) [
        | inl full ↦ rw full record {
          same = λ x k. c.same x (omega (arith, h, k)) ∙ sym (count-kept window now x bucket k);
          bounded = c.bounded;
        }
        | inr room ↦ rw room record {
          same = λ x k. ground (
            arith,
            h,
            k,
            c.same x (omega (arith, h, k)),
            count-kept window now x bucket k,
            count-append_one (in_window window x) passed now,
            count-append_one (in_window window x) (select (recent window now) bucket) now,
          );
          bounded = λ x. elim (Bool-cases (leb now x)) [
            | inl covers ↦ ground (
              arith,
              h,
              c.same x (ground arith),
              count-kept window now x bucket (ground arith),
              count-append_one (in_window window x) passed now,
              count-le_length (in_window window x) (select (recent window now) bucket),
            )
            | inr later ↦
                ground (arith, c.bounded x, count-append_one (in_window window x) passed now)
          ];
        }
      ]

  Counted-requests :
      (times : List ℕ) (last : ℕ) (bucket passed : List ℕ)
      → Forward last times
      → Counted window limit last bucket passed
      → (x : ℕ) → count (in_window window x) (requests window limit times bucket passed).1 ≤ limit
  unfolding requests
  Counted-requests [] last bucket passed h c x = c.bounded x
  Counted-requests (now ∷ times) last bucket passed h c x =
      Counted-requests times now _ _ h.1 (Counted-enter last now bucket passed h.0 c) x

  -- Of the requests of one key, at times that do not step back, no stretch of time as long as the
  -- window holds more that were let through than the limit, wherever it begins.
  pub requests-limited :
      (times : List ℕ) (last : ℕ)
      → Forward last times
      → (x : ℕ) → count (in_window window x) (requests window limit times [] []).1 ≤ limit
  requests-limited times last h x =
      Counted-requests times last [] [] h record { same = λ x k. refl; bounded = λ x. omega arith }
        x
