-- ===== src/Catalog/Ranking/Bounds.antt =====
-- The scores and the order of the products that are ranked (voclyp/catalog.py).
use voclyp_dev.Prelude.{
  ℕ, suc, ◌≤◌, ◌≡◌, refl, String, Bool, true, false, none, some, inl, inr, Option, Bool-cases,
  select, not, text_eq, List, [], ◌∷◌, arith, if◌then◌else◌, any, All, All-append, All-find_last,
  take, length, str_eq,
}
use voclyp_dev.Catalog.{
  Product, Spoken, Profile, Scored, signal_profile, score_product, score_all, clamp, raw_score,
}
use voclyp_dev.Catalog.Ranking.{
  precedes, in_store, place, sort, has_sku, tag, and_front, to_front, delete_last, rest_of,
  rank_products,
}

clamp-bounds : (s : ℕ) → (40 ≤ clamp s) × (clamp s ≤ 99)
clamp-bounds s = ground arith

-- A score is at least 40 and at most 99.
pub score_product-bounds :
    (lower : ℕ → ℕ) (p : Product) (profile : Profile)
    → (40 ≤ score_product lower p profile) × (score_product lower p profile ≤ 99)
unfolding score_product
score_product-bounds lower p profile = clamp-bounds (raw_score lower p profile)

module _ {κ} (P : Scored → Type κ) where
  All-either : (b : Bool) (xs ys : List Scored) → All P xs → All P ys → All P (if b then xs else ys)
  All-either true xs ys h k = h
  All-either false xs ys h k = k

  All-place : (x : Scored) (xs : List Scored) → P x → All P xs → All P (place x xs)
  All-place x [] p h = (p, tt)
  All-place x (y ∷ ys) p h = All-either (precedes x y) _ _ (p, h) (h.0, All-place x ys p h.1)

  All-sort : (xs : List Scored) → All P xs → All P (sort xs)
  All-sort [] h = tt
  All-sort (x ∷ xs) h = All-place x (sort xs) h.0 (All-sort xs h.1)

  All-take : (n : ℕ) (xs : List Scored) → All P xs → All P (take n xs)
  All-take ℕ.zero xs h = tt
  All-take (suc n) [] h = tt
  All-take (suc n) (x ∷ xs) h = (h.0, All-take n xs h.1)

  All-delete_last : (sku : String) (xs : List Scored) → All P xs → All P (delete_last sku xs)
  unfolding delete_last
  All-delete_last sku [] h = tt
  All-delete_last sku (x ∷ xs) h =
      All-either (any (has_sku sku) xs) _ _ (h.0, All-delete_last sku xs h.1)
        (All-either (has_sku sku x) _ _ h.1 h)

  All-rest_of : (front xs : List Scored) → All P xs → All P (rest_of front xs)
  unfolding rest_of
  All-rest_of [] xs h = h
  All-rest_of (p ∷ front) xs h =
      All-rest_of front (delete_last p.product.sku xs) (All-delete_last p.product.sku xs h)

  All-and_front :
      (sku : String) (front : List Scored) (found : Option Scored)
      → ((p : Scored) → found ≡ some p → P (tag p))
      → All P front
      → All P (and_front sku front found)
  All-and_front sku front none k g = g
  All-and_front sku front (some p) k g =
      All-either (any (has_sku sku) front) _ _ g (All-append P front (tag p ∷ []) g (k p refl, tt))

  All-to_front :
      (xs : List Scored) (skus : List String) (front : List Scored)
      → ((x : Scored) → P x → P (tag x))
      → All P xs
      → All P front
      → All P (to_front xs skus front)
  unfolding to_front
  All-to_front xs [] front k h g = g
  All-to_front xs (sku ∷ skus) front k h g =
      All-to_front xs skus _ k h
        (All-and_front sku front _ (λ p e. k p (All-find_last P (has_sku sku) xs h e)) g)

  All-score_all :
      (lower : ℕ → ℕ) (profile : Profile) (products : List Product)
      → ((x : Scored) → x.match_score ≡ score_product lower x.product profile → P x)
      → All P (score_all lower profile products)
  unfolding score_all
  All-score_all lower profile [] k = tt
  All-score_all lower profile (p ∷ products) k = (k _ refl, All-score_all lower profile products k)

-- Each ranked product has the score of that product for what was said, between 40 and 99, whether it
-- was discussed or not.
pub rank_products-scored :
    (lower : ℕ → ℕ) (products : List Product) (signals : List Spoken) (limit : ℕ)
    (discussed_skus : List String)
    → All
        (λ x.
          (x.match_score ≡ score_product lower x.product (signal_profile lower signals))
          × ((40 ≤ x.match_score) × (x.match_score ≤ 99)))
        (rank_products lower products signals limit discussed_skus)
unfolding rank_products tag
rank_products-scored lower products signals limit discussed_skus = All-take P limit _ (
    All-append P front _ (All-to_front P scored discussed [] (λ x. tagged x) kept tt)
      (All-rest_of P front scored kept))
  where
    profile : Profile
    profile = signal_profile lower signals

    P : Scored → Type 0
    P x =
        (x.match_score ≡ score_product lower x.product profile)
        × ((40 ≤ x.match_score) × (x.match_score ≤ 99))

    scored : List Scored
    scored = sort (score_all lower profile products)

    discussed : List String
    discussed = select (λ s. not (str_eq s "")) discussed_skus

    front : List Scored
    front = to_front scored discussed []

    kept : All P scored
    kept =
        All-sort P (score_all lower profile products)
          (All-score_all P lower profile products (λ x e. (e, bounded x e)))
      where
        bounded :
            (x : Scored)
            → x.match_score ≡ score_product lower x.product profile
            → (40 ≤ x.match_score) × (x.match_score ≤ 99)
        bounded x e = rw e (score_product-bounds lower x.product profile)

    tagged : (x : Scored) → P x → P (tag x)
    tagged x p = elim (Bool-cases (any (text_eq in_store) x.reasons)) [
      | inl t ↦ rw t p
      | inr f ↦ rw f p
    ]

-- No more products are ranked than the limit.
pub rank_products-limit :
    (lower : ℕ → ℕ) (products : List Product) (signals : List Spoken) (limit : ℕ)
    (discussed_skus : List String)
    → length (rank_products lower products signals limit discussed_skus) ≤ limit
unfolding rank_products
rank_products-limit lower products signals limit discussed_skus = length-take_le limit _
  where
    length-take_le : (n : ℕ) (xs : List Scored) → length (take n xs) ≤ n
    length-take_le ℕ.zero xs = omega arith
    length-take_le (suc n) [] = omega arith
    length-take_le (suc n) (x ∷ xs) = omega (arith, length-take_le n xs)
