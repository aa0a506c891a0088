-- ===== src/Stages/Signals/Once.antt =====
-- No signal is extracted twice: the set `seen` (voclyp/pipeline/stages/signals.py).
use voclyp_dev.Prelude.{
  ℕ, ◌+◌, ◌≡◌, true, false, Bool-cases, Option-cases, inl, inr, List, [], ◌∷◌, ◌++◌, arith, any,
  eq_iff, All, All-append, All-weaken,
}
use voclyp_dev.Contracts.{Signal, SignalType}
use voclyp_dev.Contracts.Context.{Utterance, Context}
use voclyp_dev.Stages.Taxonomy.{Pattern, Spec, Taxonomy}
use voclyp_dev.Stages.Taxonomy.Merging.{same_type→eq, same_type_refl}
use voclyp_dev.Stages.Signals.{
  Chars, Key, same_key, Found, note_signal, passes, matched, try_patterns, try_types, try_turns,
  extract_signals,
}

abbrev pub key_of : Signal → Key
key_of s = record { type = s.type; subtype = s.subtype; turn = s.turn }

-- No two signals have the type, the subtype and the turn in common.
abbrev pub Distinct : List Signal → Type 0
Distinct [] = Unit
Distinct (s ∷ signals) =
    All (λ r. same_key (key_of s) (key_of r) ≡ false) signals × Distinct signals

-- The set holds the keys of the signals, which are distinct.
IsNoted : Found → Type 0
IsNoted found =
    Distinct found.signals × All (λ s. any (same_key (key_of s)) found.seen ≡ true) found.signals

same_key_trans : (a b c : Key) → same_key a b ≡ true → same_key a c ≡ true → same_key b c ≡ true
unfolding same_key
same_key_trans a b c h k = ground (
  arith,
  same_type→eq a.type b.type,
  same_type→eq a.type c.type,
  same_type_refl c.type,
  eq_iff a.subtype b.subtype,
  eq_iff a.subtype c.subtype,
  eq_iff b.subtype c.subtype,
)

same_key_refl : (a : Key) → same_key a a ≡ true
unfolding same_key
same_key_refl a = ground (arith, same_type_refl a.type, eq_iff a.subtype a.subtype)

-- A key that is not in the set differs from every key that is.
seen-apart :
    (a b : Key) (seen : List Key)
    → any (same_key a) seen ≡ true
    → any (same_key b) seen ≡ false
    → same_key a b ≡ false
seen-apart a b [] h k = cc
seen-apart a b (c ∷ seen) h k = ground (arith, same_key_trans a b c, seen-apart a b seen)

Distinct-append :
    (signals : List Signal) (x : Signal)
    → Distinct signals
    → All (λ s. same_key (key_of s) (key_of x) ≡ false) signals
    → Distinct (signals ++ x ∷ [])
Distinct-append [] x d a = (tt, tt)
Distinct-append (s ∷ signals) x d a =
    (All-append _ signals (x ∷ []) d.0 (a.0, tt), Distinct-append signals x d.1 a.1)

note_signal-IsNoted :
    (t : SignalType) (pattern : Pattern) (turn : ℕ) (u : Utterance) (found : Found)
    → IsNoted found
    → IsNoted (note_signal t pattern turn u found)
unfolding note_signal IsNoted
note_signal-IsNoted t pattern turn u found h =
    let key : Key = record { type = t; subtype = pattern.subtype; turn = turn } in
    elim (Bool-cases (any (same_key key) found.seen)) [
      | inl old ↦ rw (note_signal, old) h
      | inr new ↦
          rw (note_signal, new)
            (
              Distinct-append found.signals _ h.0 (
                  All-weaken found.signals (λ s k. seen-apart (key_of s) key found.seen k new) h.1),
              All-append _ found.signals _ (All-weaken found.signals (λ s k. ground (arith, k)) h.1)
                  (ground (arith, same_key_refl key), tt),
            )
    ]

module _ (chars : Chars) where
  try_patterns-IsNoted :
      (t : SignalType) (turn : ℕ) (u : Utterance) (patterns : List Pattern) (found : Found)
      → IsNoted found
      → IsNoted (try_patterns chars t turn u patterns found)
  unfolding try_patterns
  try_patterns-IsNoted t turn u [] found h = h
  try_patterns-IsNoted t turn u (pattern ∷ patterns) found h =
      try_patterns-IsNoted t turn u patterns _ (elim (Option-cases (matched chars t pattern u)) [
        | inl unmatched ↦ rw unmatched h
        | inr (phrase, match) ↦ rw match (note_signal-IsNoted t pattern turn u found h)
      ])

  try_types-IsNoted :
      (turn : ℕ) (u : Utterance) (signals : List (SignalType × Spec)) (found : Found)
      → IsNoted found
      → IsNoted (try_types chars turn u signals found)
  unfolding try_types
  try_types-IsNoted turn u [] found h = h
  try_types-IsNoted turn u ((t, spec) ∷ signals) found h =
      try_types-IsNoted turn u signals _ (elim (Bool-cases (passes chars t spec u)) [
        | inr stopped ↦ rw stopped h
        | inl passed ↦ rw passed (try_patterns-IsNoted t turn u spec.patterns found h)
      ])

  try_turns-IsNoted :
      (signals : List (SignalType × Spec)) (turn : ℕ) (utterances : List Utterance) (found : Found)
      → IsNoted found
      → IsNoted (try_turns chars signals turn utterances found)
  unfolding try_turns
  try_turns-IsNoted signals turn [] found h = h
  try_turns-IsNoted signals turn (u ∷ utterances) found h =
      try_turns-IsNoted signals (turn + 1) utterances _ (try_types-IsNoted turn u signals found h)

  -- The stage extracts no two signals of one type and one subtype at one turn.
  pub extract_signals-Distinct :
      (taxonomy : Taxonomy) (ctx : Context)
      → ctx.signals ≡ []
      → Distinct (extract_signals chars taxonomy ctx).signals
  unfolding extract_signals IsNoted
  extract_signals-Distinct taxonomy ctx empty =
      (try_turns-IsNoted taxonomy.signals 0 ctx.utterances _ (rw empty tt, rw empty tt)).0
