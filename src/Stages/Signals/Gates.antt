-- ===== src/Stages/Signals/Gates.antt =====
-- What the signals that the stage extracts say (voclyp/pipeline/stages/signals.py).
use voclyp_dev.Prelude.{
  ℕ, zero, suc, ◌+◌, ◌≡◌, refl, ap, ◌∙◌, true, false, Bool, ◌≤◌, ◌⊎◌, map, codes, length, find,
  find-holds, text_eq, text_eq→eq, Bool-cases, Option-cases, inl, inr, Option, none, some, List, [],
  ◌∷◌, arith, any, Text, All, All-append,
}
use mathlib.Core.List.{Memᴰ}
use voclyp_dev.Contracts.{Signal, SignalType, demand, intent, price_reaction}
use voclyp_dev.Contracts.Insight.{or_string}
use voclyp_dev.Stages.Words.{contains, find_words}
use voclyp_dev.Contracts.Context.{Utterance, Context}
use voclyp_dev.Stages.Taxonomy.{Pattern, Spec, Taxonomy, same_type}
use voclyp_dev.Stages.Signals.{
  Chars, is_need, is_wish, heard, is_question, is_negated, expected_speaker, Key, same_key, Found,
  signal_of, note_signal, passes, matched, try_patterns, try_types, try_turns, extract_signals,
}

-- The utterance of a turn.
abbrev pub turn_at : ℕ → List Utterance → Option Utterance
turn_at n [] = none
turn_at zero (u ∷ utterances) = some u
turn_at (suc n) (u ∷ utterances) = turn_at n utterances

-- A need of a customer.
abbrev pub Needs : SignalType → Type 0
Needs t = (t ≡ demand) ⊎ (t ≡ intent)

-- A type of signal that a negation takes back.
abbrev pub Wishes : SignalType → Type 0
Wishes t = Needs t ⊎ (t ≡ price_reaction)

Needs-is_need : (t : SignalType) → Needs t → is_need t ≡ true
unfolding same_type
Needs-is_need t (inl e) = rw e refl
Needs-is_need t (inr e) = rw e refl

Wishes-is_wish : (t : SignalType) → Wishes t → is_wish t ≡ true
unfolding same_type
Wishes-is_wish t (inl (inl e)) = rw e refl
Wishes-is_wish t (inl (inr e)) = rw e refl
Wishes-is_wish t (inr e) = rw e refl

Memᴰ-find {ℓ} : {A : Type ℓ} (p : A → Bool) (xs : List A) {x : A} → find p xs ≡ some x → Memᴰ x xs
Memᴰ-find p [] h = cc h
Memᴰ-find p (y ∷ xs) {x} h = elim (Bool-cases (p y)) [
  | inl t ↦ Memᴰ.head (ground arith)
  | inr t ↦ Memᴰ.tail (Memᴰ-find p xs (ground arith))
]

module _ (chars : Chars) (t : SignalType) (u : Utterance) where
  -- What the gates before the patterns let through.
  passes-gates :
      (spec : Spec)
      → passes chars t spec u ≡ true
      → ((expected_speaker chars t spec ≡ codes "any")
          ⊎ (codes (or_string u.speaker "unknown") ≡ expected_speaker chars t spec))
        × (Needs t → is_question chars (codes (heard u)) ≡ false)
        × (Needs t → 3 ≤ length (find_words (map chars.lower (codes (heard u)))))
  unfolding passes
  passes-gates spec h = (
    elim (Bool-cases (text_eq (expected_speaker chars t spec) (codes "any"))) [
      | inl any_one ↦ inl (text_eq→eq _ _ any_one)
      | inr one ↦ inr (text_eq→eq _ _ (ground arith))
    ],
    λ n. let need = Needs-is_need t n in ground arith,
    λ n. let need = Needs-is_need t n in ground arith,
  )

  -- The phrase that an utterance is matched by.
  matched-phrase :
      (pattern : Pattern) {phrase : Text}
      → matched chars t pattern u ≡ some phrase
      → Memᴰ phrase (map (λ p. map chars.lower p) pattern.phrases)
        × (contains phrase (map chars.lower (codes (heard u))) ≡ true)
        × (Wishes t → is_negated (map chars.lower (codes (heard u))) phrase ≡ false)
  unfolding matched
  matched-phrase pattern {phrase} h =
      let there = λ (p : Text). contains p (map chars.lower (codes (heard u))) in
      let phrases = map (λ p. map chars.lower p) pattern.phrases in
      elim (Option-cases (find there phrases)) [
        | inl absent ↦ absurd (ground (arith, absent))
        | inr (p, found) ↦
            let same : p ≡ phrase = ground (arith, found) in
            let own : find there phrases ≡ some phrase = rw (← same) found in
            (
              Memᴰ-find there phrases own,
              find-holds there phrases own,
              λ n. let wish = Wishes-is_wish t n in ground (arith, own),
            )
      ]

module _ (chars : Chars) (signals : List (SignalType × Spec)) where
  -- What makes a signal of a turn's utterance: an entry of the taxonomy, whose speaker it is said by,
  -- and a pattern of that entry, of which a phrase is in it. A demand or an intent is not asked and is
  -- said in three words or more; a phrase of those and of a price reaction is not negated.
  pub record Grounds (turn : ℕ) (u : Utterance) (s : Signal) : Type 0 where
    pub spec : Spec
    pub pattern : Pattern
    pub phrase : Text
    pub entry : Memᴰ (s.type, spec) signals
    pub listed : Memᴰ pattern spec.patterns
    pub says : s ≡ signal_of s.type pattern turn u
    pub speaks :
        (expected_speaker chars s.type spec ≡ codes "any")
        ⊎ (codes (or_string u.speaker "unknown") ≡ expected_speaker chars s.type spec)
    pub stated : Needs s.type → is_question chars (codes (heard u)) ≡ false
    pub said : Needs s.type → 3 ≤ length (find_words (map chars.lower (codes (heard u))))
    pub spoken : Memᴰ phrase (map (λ p. map chars.lower p) pattern.phrases)
    pub present : contains phrase (map chars.lower (codes (heard u))) ≡ true
    pub meant : Wishes s.type → is_negated (map chars.lower (codes (heard u))) phrase ≡ false

  module _ (utterances : List Utterance) where
    -- The signal stands at a turn of the conversation, and has its grounds in what was said there.
    abbrev pub IsGrounded : Signal → Type 0
    IsGrounded s = (u : Utterance) × (turn_at s.turn utterances ≡ some u) × Grounds s.turn u s

    note_signal-IsGrounded :
        (t : SignalType) (pattern : Pattern) (turn : ℕ) (u : Utterance) (found : Found)
        → IsGrounded (signal_of t pattern turn u)
        → All IsGrounded found.signals
        → All IsGrounded (note_signal t pattern turn u found).signals
    unfolding note_signal
    note_signal-IsGrounded t pattern turn u found g h =
        let key : Key = record { type = t; subtype = pattern.subtype; turn = turn } in
        elim (Bool-cases (any (same_key key) found.seen)) [
          | inl old ↦ rw (note_signal, old) h
          | inr new ↦ rw (note_signal, new) (All-append _ found.signals _ h (g, tt))
        ]

    module _ (t : SignalType) (spec : Spec) (turn : ℕ) (u : Utterance)
        (at : turn_at turn utterances ≡ some u) (entry : Memᴰ (t, spec) signals)
        (passed : passes chars t spec u ≡ true) where
      try_patterns-IsGrounded :
          (patterns : List Pattern) (found : Found)
          → ((p : Pattern) → Memᴰ p patterns → Memᴰ p spec.patterns)
          → All IsGrounded found.signals
          → All IsGrounded (try_patterns chars t turn u patterns found).signals
      unfolding try_patterns
      try_patterns-IsGrounded [] found there h = h
      try_patterns-IsGrounded (pattern ∷ patterns) found there h =
          try_patterns-IsGrounded patterns _ (λ p m. there p (Memᴰ.tail m))
            (elim (Option-cases (matched chars t pattern u)) [
              | inl unmatched ↦ rw unmatched h
              | inr (phrase, match) ↦
                  let gates = passes-gates chars t u spec passed in
                  let text = matched-phrase chars t u pattern match in
                  rw match (
                    note_signal-IsGrounded t pattern turn u found
                      (
                        u,
                        at,
                        record {
                          spec = spec;
                          pattern = pattern;
                          phrase = phrase;
                          entry = entry;
                          listed = there pattern (Memᴰ.head refl);
                          says = refl;
                          speaks = gates.0;
                          stated = gates.1;
                          said = gates.2;
                          spoken = text.0;
                          present = text.1;
                          meant = text.2;
                        },
                      )
                      h)
            ])

    try_types-IsGrounded :
        (turn : ℕ) (u : Utterance) (rest : List (SignalType × Spec)) (found : Found)
        → turn_at turn utterances ≡ some u
        → ((e : SignalType × Spec) → Memᴰ e rest → Memᴰ e signals)
        → All IsGrounded found.signals
        → All IsGrounded (try_types chars turn u rest found).signals
    unfolding try_types
    try_types-IsGrounded turn u [] found at there h = h
    try_types-IsGrounded turn u ((t, spec) ∷ rest) found at there h =
        try_types-IsGrounded turn u rest _ at (λ e m. there e (Memᴰ.tail m))
          (elim (Bool-cases (passes chars t spec u)) [
            | inr stopped ↦ rw stopped h
            | inl passed ↦ rw passed (
                try_patterns-IsGrounded t spec turn u at (there (t, spec) (Memᴰ.head refl)) passed
                  spec.patterns found (λ p m. m) h)
          ])

    try_turns-IsGrounded :
        (turn : ℕ) (rest : List Utterance) (found : Found)
        → ((i : ℕ) → turn_at (turn + i) utterances ≡ turn_at i rest)
        → All IsGrounded found.signals
        → All IsGrounded (try_turns chars signals turn rest found).signals
    unfolding try_turns
    try_turns-IsGrounded turn [] found at h = h
    try_turns-IsGrounded turn (u ∷ rest) found at h =
        try_turns-IsGrounded (turn + 1) rest _
          (λ i.
            let next : turn + 1 + i ≡ turn + suc i = omega arith in
            ap (λ n. turn_at n utterances) next ∙ at (suc i))
          (try_types-IsGrounded turn u signals found
            (let here : turn ≡ turn + 0 = omega arith in ap (λ n. turn_at n utterances) here ∙ at 0)
            (λ e m. m) h)

-- Each signal that the stage extracts from a conversation that has none yet stands at one of its
-- turns, quotes what was said there and names who said it. It is of an entry of the taxonomy that
-- expects that speaker or any, and of a pattern of the entry of which a phrase, both lower-cased, is
-- in the utterance. A demand or an intent is not asked as a question and is said in three words or
-- more; the phrase of a demand, an intent or a price reaction is not negated.
pub extract_signals-IsGrounded :
    (chars : Chars) (taxonomy : Taxonomy) (ctx : Context)
    → ctx.signals ≡ []
    → All
        (IsGrounded chars taxonomy.signals ctx.utterances)
        (extract_signals chars taxonomy ctx).signals
unfolding extract_signals
extract_signals-IsGrounded chars taxonomy ctx empty =
    try_turns-IsGrounded chars taxonomy.signals ctx.utterances 0 ctx.utterances _
      (λ i. let same : 0 + i ≡ i = omega arith in ap (λ n. turn_at n ctx.utterances) same)
      (rw empty tt)
