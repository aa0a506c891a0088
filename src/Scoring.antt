-- ===== src/Scoring.antt =====
-- voclyp/scoring.py: the conversation score. All weights, bonuses and bounds of the source are
-- whole numbers, so the floats of the source are exact integers here and `round(…, 1)` changes
-- nothing; the raw score may be negative before it is clamped, so it is an integer.
mod Tests
pub mod Bounds
pub mod Order
use voclyp_dev.Prelude.{
  ℕ, ◌+◌, ◌*◌, ◌<◌, String, Bool, ◌&&◌, ◌||◌, not, List, [], ◌∷◌, some, none, if◌then◌else◌, ltb,
  leb, ◌==◌, length, lookup, insert, add, str_eq,
}
use voclyp_dev.Prelude.Int.{ℤ, pos, sub_ℕ, ltb_ℤ}
use voclyp_dev.Contracts.{
  Signal, SignalType, intent, demand, promise, objection, price_reaction, competitor_mention,
}

-- `counts`: one counter for each key of `_SIGNAL_WEIGHTS`
pub record Counts : Type 0 where
  pub intents : ℕ
  pub demands : ℕ
  pub promises : ℕ
  pub objections : ℕ
  pub price_reactions : ℕ
  pub competitor_mentions : ℕ

abbrev pub no_counts : Counts
no_counts = record {
  intents = 0;
  demands = 0;
  promises = 0;
  objections = 0;
  price_reactions = 0;
  competitor_mentions = 0;
}

-- `if s_type in counts: counts[s_type] += 1`
pub bump : SignalType → Counts → Counts
bump intent c = record c { intents = c.intents + 1 }
bump demand c = record c { demands = c.demands + 1 }
bump promise c = record c { promises = c.promises + 1 }
bump objection c = record c { objections = c.objections + 1 }
bump price_reaction c = record c { price_reactions = c.price_reactions + 1 }
bump competitor_mention c = record c { competitor_mentions = c.competitor_mentions + 1 }
bump (SignalType.other _) c = c

-- `_SUBTYPE_BONUS.get(sub, 0.0)`
pub subtype_bonus : String → ℕ
subtype_bonus sub =
    if str_eq sub "referral_intent"
    then 10
    else if str_eq sub "purchase_intent"
    then 6
    else if str_eq sub "trial_request"
    then 3
    else if str_eq sub "delivery_promise"
    then 3
    else if str_eq sub "follow_up_promise"
    then 1
    else 0

-- the variables of the loop of `score_conversation`
pub record Tally : Type 0 where
  pub counts : Counts
  pub subtype_counts : List (String × ℕ)
  pub demand_subtypes : List String
  pub bonus : ℕ

abbrev pub no_tally : Tally
no_tally = record { counts = no_counts; subtype_counts = []; demand_subtypes = []; bonus = 0 }

abbrev pub get_zero : String → List (String × ℕ) → ℕ
get_zero k d = elim (lookup k d) [ none ↦ 0 | some n ↦ n ]

pub is_demand : SignalType → Bool
is_demand demand = Bool.true
is_demand _ = Bool.false

-- one round of the loop
pub tally_signal : Signal → Tally → Tally
tally_signal s t =
    let sub = s.subtype in
    if str_eq sub "" then record t { counts = bump s.type t.counts } else record {
      counts = bump s.type t.counts;
      subtype_counts = insert sub (get_zero sub t.subtype_counts + 1) t.subtype_counts;
      demand_subtypes = if is_demand s.type then add sub t.demand_subtypes else t.demand_subtypes;
      bonus = t.bonus + subtype_bonus sub;
    }

pub tally_from : Tally → List Signal → Tally
tally_from t [] = t
tally_from t (s ∷ signals) = tally_from (tally_signal s t) signals

-- `max(low, min(high, value))`
pub clamp : ℤ → ℤ → ℤ → ℤ
clamp low high value =
    let least = if ltb_ℤ value high then value else high in if ltb_ℤ low least then least else low

-- `_BASELINE + sum(_SIGNAL_WEIGHTS[t] * n …) + bonus`
pub raw_score : Tally → ℤ
raw_score t =
    let c = t.counts in
    sub_ℕ (50 + 12 * c.intents + 10 * c.demands + 15 * c.promises + t.bonus)
      (8 * c.objections + 6 * c.price_reactions + 4 * c.competitor_mentions)

pub data Rating : Type 0 where
  poor average good : Rating

pub data Outcome : Type 0 where
  at_risk neutral promising : Outcome

pub rating_of : ℤ → Rating
rating_of score =
    if not (ltb_ℤ score (pos 70))
    then good
    else if not (ltb_ℤ score (pos 45))
    then average
    else poor

pub outcome_of : Counts → ℤ → Outcome
outcome_of c score =
    let positive = c.intents + c.demands + c.promises in
    let negative = c.objections + c.price_reactions in
    if ltb 0 c.promises || (ltb negative positive && not (ltb_ℤ score (pos 60)))
    then promising
    else if ltb positive negative && ltb_ℤ score (pos 45)
    then at_risk
    else neutral

-- the `components` block
pub record Components : Type 0 where
  pub buying_intent : ℕ
  pub commitment : ℕ
  pub objection_pressure : ℕ
  pub competitive_pressure : ℕ
  pub advocacy : ℕ
  pub discovery_depth : ℕ

-- the dict that `score_conversation` returns
pub record Scoring : Type 0 where
  pub score : ℤ
  pub rating : Rating
  pub outcome : Outcome
  pub signal_counts : Counts
  pub subtype_counts : List (String × ℕ)
  pub components : Components

pub components_of : Tally → Components
components_of t =
    let c = t.counts in
    record {
      buying_intent = c.intents + c.demands;
      commitment = c.promises;
      objection_pressure = c.objections + c.price_reactions;
      competitive_pressure = c.competitor_mentions;
      advocacy = get_zero "referral_intent" t.subtype_counts;
      discovery_depth = length t.demand_subtypes;
    }

-- the part of `score_conversation` below its loop
pub scoring_of : Tally → Scoring
unfolding clamp raw_score rating_of outcome_of components_of
scoring_of t =
    let score = clamp (pos 0) (pos 100) (raw_score t) in
    record {
      score = score;
      rating = rating_of score;
      outcome = outcome_of t.counts score;
      signal_counts = t.counts;
      subtype_counts = t.subtype_counts;
      components = components_of t;
    }

pub score_conversation : List Signal → Scoring
score_conversation signals = scoring_of (tally_from no_tally signals)
