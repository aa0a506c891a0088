-- ===== src/Scoring/Tests.antt =====
-- The scorer (voclyp/scoring.py) on concrete signals.
use mathlib.Core.List.{Perm, Permᴰ}
use voclyp_dev.Prelude.{◌≡◌, refl, String, List, [], ◌∷◌}
use voclyp_dev.Prelude.Int.{pos}
use voclyp_dev.Contracts.{Signal, SignalType, intent, promise, objection}
use voclyp_dev.Scoring.{
  at_risk, score_conversation, scoring_of, tally_from, tally_signal, bump, subtype_bonus,
}
use voclyp_dev.Scoring.Order.{SameScoring, score_conversation-perm}

abbrev signal : SignalType → String → Signal
signal type subtype = record {
  type = type;
  subtype = subtype;
  speaker = "Customer";
  quote = "-";
  turn = 1;
  confidence = 90;
}

abbrev mixed : List Signal
mixed = signal intent "budget" ∷ signal objection "price" ∷ []

abbrev objections : List Signal
objections = signal objection "price" ∷ signal objection "trust" ∷ []

abbrev promised : Signal
promised = signal promise "callback"

mixed_score : (score_conversation mixed).score ≡ pos 54
unfolding score_conversation scoring_of tally_from tally_signal bump subtype_bonus
mixed_score = refl

objections_at_risk : (score_conversation objections).outcome ≡ at_risk
unfolding score_conversation scoring_of tally_from tally_signal bump subtype_bonus
objections_at_risk = refl

swapped : Perm mixed (signal objection "price" ∷ signal intent "budget" ∷ [])
swapped = ∣ Permᴰ.swap refl refl ∣₁

score_conversation-perm_example :
    SameScoring
      (score_conversation mixed)
      (score_conversation (signal objection "price" ∷ signal intent "budget" ∷ []))
score_conversation-perm_example =
    score_conversation-perm mixed (signal objection "price" ∷ signal intent "budget" ∷ []) swapped
