-- ===== src/Catalog/Ranking/Tests.antt =====
-- Two products ranked for a customer with back pain (voclyp/catalog.py).
use voclyp_dev.Prelude.{ℕ, ◌≡◌, refl, true, false, String, List, [], ◌∷◌, map, codes}
use voclyp_dev.Catalog.{
  Product, Spoken, signal_profile, score_product, score_all, raw_score, reasons_of,
}
use voclyp_dev.Stages.Words.{contains}
use voclyp_dev.Catalog.Ranking.{rank_products, to_front, rest_of, delete_last, tag}

abbrev product : String → String → ℕ → Product
product sku series price = record {
  sku = sku;
  series = codes series;
  affordability_tier = [];
  price_inr = price;
  cooling = false;
  warranty_years = codes "10";
  match_signals = [];
  trial_nights = [];
  positioning = [];
  emi = [];
}

abbrev said : List Spoken
said =
    record { type = codes "demand"; subtype = codes "orthopaedic_need"; quote = codes "my spine" }
    ∷ []

abbrev ranking : List String → List (String × ℕ)
ranking discussed =
    map (λ s. (s.product.sku, s.match_score))
      (rank_products (λ c. c)
        (product "luxe1" "luxe" 30 ∷ product "ortho1" "ortho" 20 ∷ product "luxe2" "luxe" 25 ∷ [])
        said 3 discussed)

by_need : ranking [] ≡ ("ortho1", 82) ∷ ("luxe2", 52) ∷ ("luxe1", 52) ∷ []
unfolding rank_products to_front rest_of delete_last tag score_all score_product raw_score
    signal_profile reasons_of contains
by_need = refl

discussed_first :
    ranking ("" ∷ "luxe1" ∷ "luxe1" ∷ []) ≡ ("luxe1", 52) ∷ ("ortho1", 82) ∷ ("luxe2", 52) ∷ []
unfolding rank_products to_front rest_of delete_last tag score_all score_product raw_score
    signal_profile reasons_of contains
discussed_first = refl

-- the word "premium" has "emi" in it
premium_is_emi_interest :
    (signal_profile
      (λ c. c)
      (record { type = codes "demand"; subtype = []; quote = codes "premium" } ∷ [])).emi_interest
    ≡ true
unfolding signal_profile contains
premium_is_emi_interest = refl
