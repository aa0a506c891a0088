-- ===== src/Scoring/Order.antt =====
-- The score does not depend on the order in which the signals were extracted (voclyp/scoring.py).
use mathlib.Core.Logic.{∥∥₁_elim}
use mathlib.Core.List.{Perm, Permᴰ}
use voclyp_dev.Prelude.{
  ◌+◌, ◌≡◌, ◌∙◌, refl, String, Bool, not, ◌&&◌, ◌||◌, if◌then◌else◌, some, List, [], ◌∷◌, arith,
  lookup, member, length, str_eq, eq_iff, lookup-insert, member-add,
}
use voclyp_dev.Contracts.{Signal, SignalType}
use voclyp_dev.Scoring.{
  Tally, Counts, Scoring, bump, tally_from, tally_signal, no_tally, scoring_of, score_conversation,
  raw_score, components_of, get_zero, is_demand,
}

-- Two tallies that agree up to the order of their dict and their set.
record SameTally (a b : Tally) : Type 0 where
  counts : a.counts ≡ b.counts
  bonus : a.bonus ≡ b.bonus
  looked_up : (k : String) → lookup k a.subtype_counts ≡ lookup k b.subtype_counts
  members : (k : String) → member k a.demand_subtypes ≡ member k b.demand_subtypes
  sizes : length a.demand_subtypes ≡ length b.demand_subtypes

bump_comm : (s t : SignalType) (c : Counts) → bump s (bump t c) ≡ bump t (bump s c)
unfolding bump
bump_comm s t c = ground arith

SameTally-step :
    (s : Signal) {a b : Tally} → SameTally a b → SameTally (tally_signal s a) (tally_signal s b)
unfolding tally_signal
SameTally-step s {a} {b} h = record {
  counts = ground (arith, h.counts);
  bonus = ground (arith, h.bonus);
  looked_up = λ k. ground (
    arith,
    h.looked_up k,
    h.looked_up s.subtype,
    lookup-insert s.subtype k (get_zero s.subtype a.subtype_counts + 1) a.subtype_counts,
    lookup-insert s.subtype k (get_zero s.subtype b.subtype_counts + 1) b.subtype_counts,
  );
  members = λ k. ground (
    arith,
    h.members k,
    member-add s.subtype k a.demand_subtypes,
    member-add s.subtype k b.demand_subtypes,
  );
  sizes = ground (arith, h.sizes, h.members s.subtype);
}

-- Does the signal name a demand that the set of demands takes in?
adds_to : Signal → Bool
adds_to s = not (str_eq s.subtype "") && is_demand s.type

-- What one round of the loop does to each observation of the tally.
module _ (s : Signal) (a : Tally) where
  lookup-tally_signal :
      (k : String)
      → lookup k (tally_signal s a).subtype_counts ≡ (
          if str_eq s.subtype ""
          then lookup k a.subtype_counts
          else if str_eq s.subtype k
          then some (get_zero k a.subtype_counts + 1)
          else lookup k a.subtype_counts)
  unfolding tally_signal
  lookup-tally_signal k = ground (
    arith,
    eq_iff s.subtype k,
    lookup-insert s.subtype k (get_zero s.subtype a.subtype_counts + 1) a.subtype_counts,
  )

  member-tally_signal :
      (k : String)
      → member k (tally_signal s a).demand_subtypes
        ≡ ((adds_to s && str_eq s.subtype k) || member k a.demand_subtypes)
  unfolding tally_signal adds_to
  member-tally_signal k = ground (arith, member-add s.subtype k a.demand_subtypes)

  length-tally_signal :
      length (tally_signal s a).demand_subtypes
      ≡ (if adds_to s && not (member s.subtype a.demand_subtypes) then 1 else 0)
        + length a.demand_subtypes
  unfolding tally_signal adds_to
  length-tally_signal = ground arith

module _ (s t : Signal) (a : Tally) where
  lookup-swap :
      (k : String)
      → lookup k (tally_signal s (tally_signal t a)).subtype_counts
        ≡ lookup k (tally_signal t (tally_signal s a)).subtype_counts
  lookup-swap k = ground (
    arith,
    lookup-tally_signal s (tally_signal t a) k,
    lookup-tally_signal t (tally_signal s a) k,
    lookup-tally_signal s a k,
    lookup-tally_signal t a k,
  )

  member-swap :
      (k : String)
      → member k (tally_signal s (tally_signal t a)).demand_subtypes
        ≡ member k (tally_signal t (tally_signal s a)).demand_subtypes
  member-swap k = ground (
    arith,
    member-tally_signal s (tally_signal t a) k,
    member-tally_signal t (tally_signal s a) k,
    member-tally_signal s a k,
    member-tally_signal t a k,
  )

  length-swap :
      length (tally_signal s (tally_signal t a)).demand_subtypes
      ≡ length (tally_signal t (tally_signal s a)).demand_subtypes
  length-swap = ground (
    arith,
    eq_iff s.subtype t.subtype,
    eq_iff t.subtype s.subtype,
    length-tally_signal s (tally_signal t a),
    length-tally_signal t (tally_signal s a),
    length-tally_signal s a,
    length-tally_signal t a,
    member-tally_signal s a t.subtype,
    member-tally_signal t a s.subtype,
  )

SameTally-swap :
    (s t : Signal) (a : Tally)
    → SameTally (tally_signal s (tally_signal t a)) (tally_signal t (tally_signal s a))
unfolding tally_signal
SameTally-swap s t a = record {
  counts = ground (arith, bump_comm s.type t.type a.counts);
  bonus = ground arith;
  looked_up = lookup-swap s t a;
  members = member-swap s t a;
  sizes = length-swap s t a;
}

SameTally-refl : (a : Tally) → SameTally a a
SameTally-refl a = record {
  counts = refl;
  bonus = refl;
  looked_up = λ k. refl;
  members = λ k. refl;
  sizes = refl;
}

SameTally-trans : {a b c : Tally} → SameTally a b → SameTally b c → SameTally a c
SameTally-trans h g = record {
  counts = h.counts ∙ g.counts;
  bonus = h.bonus ∙ g.bonus;
  looked_up = λ k. h.looked_up k ∙ g.looked_up k;
  members = λ k. h.members k ∙ g.members k;
  sizes = h.sizes ∙ g.sizes;
}

SameTally-tally_from :
    (l : List Signal) {a b : Tally} → SameTally a b → SameTally (tally_from a l) (tally_from b l)
unfolding tally_from
SameTally-tally_from [] h = h
SameTally-tally_from (s ∷ l) h = SameTally-tally_from l (SameTally-step s h)

-- A permutation of the signals leaves the tally the same, up to the order of its dict and set.
SameTally-perm :
    {l m : List Signal} → Permᴰ l m → (a : Tally) → SameTally (tally_from a l) (tally_from a m)
unfolding tally_from
SameTally-perm Permᴰ.nil a = SameTally-refl a
SameTally-perm (Permᴰ.cons {a = s} {l₁ = l} e p) a = rw (← e) (SameTally-perm p (tally_signal s a))
SameTally-perm (Permᴰ.swap {a = s} {b = t} {l = l} e f) a =
    rw (← e, ← f) (SameTally-tally_from l (SameTally-swap t s a))
SameTally-perm (Permᴰ.trans p q) a = SameTally-trans (SameTally-perm p a) (SameTally-perm q a)

-- Two scoring blocks with the same score, rating, outcome, counters and components, whose dicts of
-- subtype counters hold the same entries.
abbrev pub SameScoring : Scoring → Scoring → Type 0
SameScoring a b =
    (a.score ≡ b.score)
    × (a.rating ≡ b.rating)
    × (a.outcome ≡ b.outcome)
    × (a.signal_counts ≡ b.signal_counts)
    × (a.components ≡ b.components)
    × ((k : String) → lookup k a.subtype_counts ≡ lookup k b.subtype_counts)

SameScoring-prop : (a b : Scoring) → IsProp (SameScoring a b)
SameScoring-prop a b = hlevel

SameScoring-scoring_of : (a b : Tally) → SameTally a b → SameScoring (scoring_of a) (scoring_of b)
unfolding scoring_of raw_score components_of
SameScoring-scoring_of a b h = (
  cc (h.counts, h.bonus),
  cc (h.counts, h.bonus),
  cc (h.counts, h.bonus),
  h.counts,
  ground (arith, h.counts, h.sizes, h.looked_up "referral_intent"),
  h.looked_up,
)

-- However the signals are reordered, the scoring block is the same: its score, rating, outcome,
-- counters and components are equal, and its dict of subtype counters has the same entries.
pub score_conversation-perm :
    (l m : List Signal) → Perm l m → SameScoring (score_conversation l) (score_conversation m)
unfolding score_conversation
score_conversation-perm l m p =
    ∥∥₁_elim p (SameScoring-prop (score_conversation l) (score_conversation m))
      λ d. SameScoring-scoring_of _ _ (SameTally-perm d no_tally)
