-- ===== src/Catalog.antt =====
-- voclyp/catalog.py: how a product of a catalog is scored by what a customer said. Lower-casing is
-- by character, prices are whole rupees, and the EMI line of a product is part of it. The score
-- starts at 60, and what is taken from it is at most 36, so it is a natural number throughout.
mod Needs
pub mod Ranking
pub use Needs.{Spoken, Profile}
unfoldable pub use Needs.{signal_profile}
use voclyp_dev.Prelude.{
  ℕ, zero, suc, ◌+◌, ◌-◌, ◌*◌, String, Bool, true, false, not, ◌&&◌, ◌||◌, ◌==◌, Option, none, some,
  List, [], ◌∷◌, ◌++◌, map, if◌then◌else◌, ltb, leb, any, select, find, count, take, str_eq, member,
  Text, codes, text_eq, join, split,
}
use voclyp_dev.Stages.Words.{contains}

-- an entry of `products`: a missing number is 0, a missing text is empty, `match_signals` are the
-- tags where it has none, `warranty_years` is as it is printed and `emi` is its `emi_line`
pub record Product : Type 0 where
  pub sku : String
  pub series : Text
  pub affordability_tier : Text
  pub price_inr : ℕ
  pub cooling : Bool
  pub warranty_years : Text
  pub match_signals : List Text
  pub trial_nights : Text
  pub positioning : Text
  pub emi : Text

-- `_TIER_AFFORDABILITY` and `_TIER_PREMIUM`: what a tier adds, and what it takes
pub tier_affordability : Text → ℕ × ℕ
tier_affordability tier =
    if text_eq tier (codes "entry")
    then (12, 0)
    else if text_eq tier (codes "mid")
    then (6, 0)
    else if text_eq tier (codes "premium")
    then (0, 2)
    else if text_eq tier (codes "luxury")
    then (0, 10)
    else (0, 0)

pub tier_premium : Text → ℕ × ℕ
tier_premium tier =
    if text_eq tier (codes "entry")
    then (0, 6)
    else if text_eq tier (codes "premium")
    then (8, 0)
    else if text_eq tier (codes "luxury")
    then (12, 0)
    else (0, 0)

-- `score += n`, where the condition holds
abbrev plus : Bool → ℕ × ℕ → ℕ → ℕ
plus b change score = let (add, take_off) = change in if b then score + add - take_off else score

abbrev reason : Bool → Text → List Text
reason b text = if b then text ∷ [] else []

-- `set(keywords.split())`, of keywords that spaces divide
distinct_words : List Text → List Text
distinct_words [] = []
distinct_words (w ∷ words) =
    let rest = distinct_words words in
    if text_eq w [] || any (text_eq w) rest then rest else w ∷ rest

overlap : (ℕ → ℕ) → Product → Profile → ℕ
unfolding distinct_words
overlap lower p profile =
    count (λ w. contains w profile.text)
      (distinct_words (split 32 (map lower (join 32 p.match_signals))))

abbrev min : ℕ → ℕ → ℕ
min a b = if leb a b then a else b

abbrev max : ℕ → ℕ → ℕ
max a b = if leb a b then b else a

abbrev pub clamp : ℕ → ℕ
clamp score = max 40 (min 99 score)

-- `(product.get("affordability_tier") or "mid").lower()`
abbrev tier_of : (ℕ → ℕ) → Product → Text
tier_of lower p = map lower (elim p.affordability_tier [ [] ↦ codes "mid" | c ∷ tier ↦ c ∷ tier ])

abbrev has_text : Text → Bool
has_text [] = false
has_text (c ∷ t) = true

-- `score` at the end of `_score_product`
pub raw_score : (ℕ → ℕ) → Product → Profile → ℕ
unfolding overlap tier_affordability tier_premium
raw_score lower p profile =
    let series = map lower p.series in
    let tier = tier_of lower p in
    let is_ortho = text_eq series (codes "ortho") in
    let needs =
      plus profile.warranty (4, 0)
        (plus (profile.wants_firm && is_ortho) (10, 0)
          (plus (profile.wants_soft && text_eq series (codes "luxe")) (14, 0)
            (plus profile.cooling (if p.cooling then (26, 0) else (0, 12))
              (plus profile.ortho (if is_ortho then (22, 0) else (0, 8)) 60)))) in
    let known = needs + min 12 (overlap lower p profile * 4) in
    plus profile.premium_intent (tier_premium tier)
      (plus profile.budget_sensitive (tier_affordability tier) known)

-- the score that `_score_product` returns
pub score_product : (ℕ → ℕ) → Product → Profile → ℕ
unfolding raw_score
score_product lower p profile = clamp (raw_score lower p profile)

-- the reasons of `_score_product`
pub reasons_of : (ℕ → ℕ) → Product → Profile → List Text
reasons_of lower p profile =
    let series = map lower p.series in
    let tier = tier_of lower p in
    let is_ortho = text_eq series (codes "ortho") in
    let reasons =
      reason (profile.ortho && is_ortho) (codes "Orthopaedic SmartGRID for back/spine support")
      ++ (reason (profile.cooling && p.cooling) (codes "SnowTec cooling for hot sleepers")
          ++ (reason (profile.wants_soft && text_eq series (codes "luxe"))
                (codes "Plush medium-soft comfort")
              ++ (reason (profile.wants_firm && is_ortho) (codes "Firm, supportive feel")
                  ++ (reason profile.warranty
                        (p.warranty_years ++ codes "-year warranty vs sagging")
                      ++ (reason
                            (profile.budget_sensitive
                              && (text_eq tier (codes "entry") || text_eq tier (codes "mid")))
                            (codes "Fits a tighter budget")
                          ++ (reason
                                (profile.premium_intent
                                  && (text_eq tier (codes "premium")
                                      || text_eq tier (codes "luxury")))
                                (codes "Premium pick they asked about")
                              ++ (reason (profile.emi_interest && has_text p.emi) p.emi
                                  ++ reason (profile.trial && has_text p.trial_nights)
                                      (p.trial_nights ++ codes "-night trial")))))))) in
    elim reasons [ [] ↦ reason (has_text p.positioning) p.positioning | r ∷ rs ↦ r ∷ rs ]

-- a product with its score and its reasons
pub record Scored : Type 0 where
  pub product : Product
  pub match_score : ℕ
  pub reasons : List Text

pub score_all : (ℕ → ℕ) → Profile → List Product → List Scored
unfolding score_product reasons_of
score_all lower profile products =
    map
      (λ p. record {
        product = p;
        match_score = score_product lower p profile;
        reasons = reasons_of lower p profile;
      })
      products
