-- ===== src/Scoring/Bounds.antt =====
-- What every score satisfies, whatever the signals (voclyp/scoring.py).
use voclyp_dev.Prelude.{◌+◌, ◌<◌, ◌≡◌, ◌↔◌, List, [], ◌∷◌, ◌++◌, arith}
use voclyp_dev.Prelude.Int.{ℤ, pos, ◌≤ℤ◌}
use voclyp_dev.Contracts.{Signal, promise}
use voclyp_dev.Scoring.{
  Counts, raw_score, Tally, at_risk, promising, poor, good, tally_from, tally_signal, no_tally,
  bump, clamp, rating_of, outcome_of, scoring_of, score_conversation,
}

clamp_bounds :
    (v : ℤ) → (pos 0 ≤ℤ clamp (pos 0) (pos 100) v) × (clamp (pos 0) (pos 100) v ≤ℤ pos 100)
unfolding clamp
clamp_bounds v = ground arith

rating_of_bands :
    (s : ℤ) → ((rating_of s ≡ good) ↔ (pos 70 ≤ℤ s)) × ((rating_of s ≡ poor) ↔ (s ≤ℤ pos 44))
unfolding rating_of
rating_of_bands s = ((λ h. ground arith, λ h. ground arith), (λ h. ground arith, λ h. ground arith))

outcome_of-at_risk :
    (c : Counts) (s : ℤ)
    → outcome_of c s ≡ at_risk
    → (rating_of s ≡ poor)
      × (c.promises ≡ 0)
      × (c.intents + c.demands < c.objections + c.price_reactions)
unfolding outcome_of rating_of
outcome_of-at_risk c s h = ground arith

-- Whatever the signals, the score lies between 0 and 100.
pub score_bounds :
    (signals : List Signal)
    → (pos 0 ≤ℤ (score_conversation signals).score)
      × ((score_conversation signals).score ≤ℤ pos 100)
unfolding score_conversation scoring_of
score_bounds signals = clamp_bounds (raw_score (tally_from no_tally signals))

-- The rating is the band of the score: good from 70, poor below 45, average between.
pub rating_bands :
    (signals : List Signal)
    → let s = score_conversation signals in
      ((s.rating ≡ good) ↔ (pos 70 ≤ℤ s.score)) × ((s.rating ≡ poor) ↔ (s.score ≤ℤ pos 44))
unfolding score_conversation scoring_of
rating_bands signals =
    rating_of_bands (clamp (pos 0) (pos 100) (raw_score (tally_from no_tally signals)))

-- A conversation that is rated at risk holds no promise, has more objections and price reactions
-- than signals of intent or demand, and is rated poor.
pub at_risk-poor :
    (signals : List Signal)
    → (score_conversation signals).outcome ≡ at_risk
    → let s = score_conversation signals in
      (s.rating ≡ poor)
      × (s.components.commitment ≡ 0)
      × (s.components.buying_intent < s.components.objection_pressure)
unfolding score_conversation scoring_of
at_risk-poor signals h =
    let t = tally_from no_tally signals in
    outcome_of-at_risk t.counts (clamp (pos 0) (pos 100) (raw_score t)) h

promises-tally_from :
    (signals : List Signal) (t : Tally) (s : Signal)
    → s.type ≡ promise
    → 0 < (tally_from t (signals ++ s ∷ [])).counts.promises
unfolding tally_from tally_signal
promises-tally_from [] t s h = rw h (unfold bump in ground arith)
promises-tally_from (x ∷ signals) t s h = promises-tally_from signals (tally_signal x t) s h

-- A conversation that ends with a promise is promising, whatever was said before it.
pub promise-promising :
    (signals : List Signal) (s : Signal)
    → s.type ≡ promise
    → (score_conversation (signals ++ s ∷ [])).outcome ≡ promising
unfolding score_conversation scoring_of outcome_of
promise-promising signals s h = ground (arith, promises-tally_from signals no_tally s h)
