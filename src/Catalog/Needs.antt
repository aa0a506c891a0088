-- ===== src/Catalog/Needs.antt =====
-- `_signal_profile` of voclyp/catalog.py: what a customer needs, by the signals and their words.
use voclyp_dev.Prelude.{
  ℕ, String, Bool, ◌||◌, List, [], ◌∷◌, ◌++◌, map, any, Text, codes, text_eq, join,
}
use voclyp_dev.Stages.Words.{contains}

-- a signal as the profile reads it
pub record Spoken : Type 0 where
  pub type : Text
  pub subtype : Text
  pub quote : Text

-- what `_signal_profile` returns
pub record Profile : Type 0 where
  pub text : Text
  pub ortho : Bool
  pub cooling : Bool
  pub wants_soft : Bool
  pub wants_firm : Bool
  pub budget_sensitive : Bool
  pub emi_interest : Bool
  pub trial : Bool
  pub premium_intent : Bool
  pub warranty : Bool

-- `any_in(*needles)`
any_in : Text → List String → Bool
any_in text needles = any (λ n. contains (codes n) text) needles

-- whether one of the subtypes is among the signals'
any_of : List Text → List String → Bool
any_of subtypes wanted = any (λ w. any (text_eq (codes w)) subtypes) wanted

spoken : Spoken → Text
spoken s = s.quote ++ (32 ∷ (s.subtype ++ (32 ∷ s.type)))

unfoldable pub signal_profile : (ℕ → ℕ) → List Spoken → Profile
unfolding any_in any_of spoken
signal_profile lower signals =
    let subtypes = map (λ s. map lower s.subtype) signals in
    let text = map lower (join 32 (map spoken signals)) in
    record {
      text = text;
      ortho =
          any_of subtypes ("orthopaedic_need" ∷ [])
          || any_in text (
              "back pain" ∷ "spine" ∷ "orthopaed" ∷ "orthoped" ∷ "कमर" ∷ "पीठ" ∷ "दर्द" ∷ "doctor"
              ∷ []);
      cooling =
          any_of subtypes ("cooling_need" ∷ [])
          || any_in text
              ("cooling" ∷ "hot sleeper" ∷ "gel" ∷ "garmi" ∷ "गर्मी" ∷ "sweat" ∷ "warm" ∷ []);
      wants_soft = any_in text ("soft" ∷ "plush" ∷ "नरम" ∷ "luxurious" ∷ "luxury" ∷ "comfort" ∷ []);
      wants_firm = any_in text ("firm" ∷ "hard" ∷ "कठोर" ∷ "support" ∷ []);
      budget_sensitive =
          any_of subtypes ("budget_too_high" ∷ "budget_sensitive" ∷ [])
          || any_in text (
              "budget" ∷ "expensive" ∷ "costly" ∷ "afford" ∷ "discount" ∷ "value for money"
              ∷ "bajat" ∷ []);
      emi_interest =
          any_of subtypes ("emi_request" ∷ "emi_interest" ∷ [])
          || any_in text ("emi" ∷ "installment" ∷ "किस्त" ∷ "monthly payment" ∷ "finance" ∷ []);
      trial =
          any_of subtypes ("trial_request" ∷ [])
          || any_in text ("trial" ∷ "try first" ∷ "100 night" ∷ "ट्रायल" ∷ []);
      premium_intent =
          any_in text ("premium" ∷ "luxury" ∷ "royale" ∷ "best one" ∷ "top model" ∷ []);
      warranty =
          any_of subtypes ("warranty_concern" ∷ "local_brand_sagging" ∷ [])
          || any_in text ("warranty" ∷ "sagging" ∷ "sagged" ∷ "dhans" ∷ "durability" ∷ []);
    }
