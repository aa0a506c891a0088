-- ===== src/Catalog/Ranking.antt =====
-- `rank_products` of voclyp/catalog.py: the products by their score, cheaper first among equals, and
-- those that the conversation was about before the others.
pub mod Bounds
mod Tests
use voclyp_dev.Prelude.{
  ℕ, ◌-◌, String, Bool, true, false, not, ◌&&◌, ◌||◌, ◌==◌, Option, none, some, List, [], ◌∷◌, ◌++◌,
  if◌then◌else◌, ltb, leb, any, select, find_last, take, str_eq, Text, codes, text_eq,
}
use voclyp_dev.Catalog.{Product, Spoken, Profile, Scored, signal_profile, score_all}

-- the order of the sort key `(-match_score, price_inr)`
abbrev pub precedes : Scored → Scored → Bool
precedes a b =
    ltb b.match_score a.match_score
    || ((a.match_score == b.match_score) && leb a.product.price_inr b.product.price_inr)

abbrev pub place : Scored → List Scored → List Scored
place x [] = x ∷ []
place x (y ∷ ys) = let rest = place x ys in if precedes x y then x ∷ y ∷ ys else y ∷ rest

-- `scored.sort(key=…)`, which is stable
abbrev pub sort : List Scored → List Scored
sort [] = []
sort (x ∷ xs) = place x (sort xs)

abbrev pub has_sku : String → Scored → Bool
has_sku sku s = str_eq s.product.sku sku

abbrev pub in_store : Text
in_store = codes "You discussed this in-store"

-- a product that was discussed, with the reason that says so
pub tag : Scored → Scored
tag s = if any (text_eq in_store) s.reasons then s else record s { reasons = in_store ∷ s.reasons }

-- what `by_sku` finds is led with, where it is not yet. A product is in `front` already if one of
-- its sku is, since all of those are the same object.
abbrev pub and_front : String → List Scored → Option Scored → List Scored
and_front sku front none = front
and_front sku front (some p) = if any (has_sku sku) front then front else front ++ tag p ∷ []

-- `front`; `by_sku` has the last product of each sku
pub to_front : List Scored → List String → List Scored → List Scored
to_front scored [] front = front
to_front scored (sku ∷ skus) front =
    to_front scored skus (and_front sku front (find_last (has_sku sku) scored))

-- an object that is in `front` is the last of its sku
pub delete_last : String → List Scored → List Scored
delete_last sku [] = []
delete_last sku (x ∷ xs) =
    let rest = delete_last sku xs in
    if any (has_sku sku) xs then x ∷ rest else if has_sku sku x then xs else x ∷ xs

-- `rest`; an earlier product of a sku is not equal to the one in front, which alone is tagged
pub rest_of : List Scored → List Scored → List Scored
unfolding delete_last
rest_of [] scored = scored
rest_of (p ∷ front) scored = rest_of front (delete_last p.product.sku scored)

pub rank_products : (ℕ → ℕ) → List Product → List Spoken → ℕ → List String → List Scored
unfolding signal_profile score_all to_front rest_of
rank_products lower products signals limit discussed_skus =
    let scored = sort (score_all lower (signal_profile lower signals) products) in
    let discussed = select (λ s. not (str_eq s "")) discussed_skus in
    let front = to_front scored discussed [] in take limit (front ++ rest_of front scored)
