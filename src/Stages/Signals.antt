-- ===== src/Stages/Signals.antt =====
-- `TaxonomySignalExtraction` (voclyp/pipeline/stages/signals.py). Python's `lower`, `isspace` and
-- the word characters of its regular expressions are arguments; a character is folded on its own.
mod Tests
pub mod Gates
pub mod Speakers
pub mod Once
use voclyp_dev.Prelude.{
  ℕ, zero, suc, ◌+◌, ◌-◌, ◌*◌, String, Bool, true, false, not, ◌&&◌, ◌||◌, ◌==◌, Option, none, some,
  List, [], ◌∷◌, ◌++◌, map, if◌then◌else◌, ltb, leb, any, find, select, length, take, drop, str_eq,
  member, Text, codes, text_eq,
}
use voclyp_dev.Contracts.{
  Signal, SignalType, intent, demand, promise, objection, price_reaction, competitor_mention,
}
use voclyp_dev.Contracts.Context.{Utterance, Context}
use voclyp_dev.Contracts.Insight.{or_string}
use voclyp_dev.Stages.Words.{find_text, contains, find_words}
use voclyp_dev.Stages.Taxonomy.{Pattern, Spec, Taxonomy, same_type}

-- what Python says of characters
pub record Chars : Type 0 where
  pub lower : ℕ → ℕ
  pub isspace : ℕ → Bool
  pub isword : ℕ → Bool

-- `_NEGATORS`
negators : List Text
negators = map codes (
    "no" ∷ "not" ∷ "never" ∷ "without" ∷ "non" ∷ "none" ∷ "cant" ∷ "cannot" ∷ "dont" ∷ "doesnt"
    ∷ "didnt" ∷ "wont" ∷ "nope" ∷ "nahi" ∷ "nahin" ∷ "nai" ∷ "mat" ∷ "bina" ∷ "nako" ∷ [])

strip_apostrophes : Text → Text
strip_apostrophes token = select (λ c. not (c == 39)) token

is_negator : Text → Bool
unfolding negators strip_apostrophes
is_negator token = any (text_eq (strip_apostrophes token)) negators

-- `_is_negated(haystack, phrase)`
pub is_negated : Text → Text → Bool
unfolding is_negator find_words find_text
is_negated haystack phrase = elim (find_text phrase haystack) [
  | none ↦ false
  | some idx ↦
      let start = idx - 28 in
      let end = idx + length phrase + 36 in
      any is_negator (find_words (drop start (take end haystack)))
]

-- the openers of the regular expression
openers : List Text
openers = map codes (
    "do" ∷ "does" ∷ "did" ∷ "are" ∷ "is" ∷ "kya" ∷ "kaisa" ∷ "kitna" ∷ "kaun" ∷ "what" ∷ "how"
    ∷ "which" ∷ [])

-- `_DEFAULT_SPEAKER.get(sig_type, "any")`
abbrev pub default_speaker : SignalType → Text
default_speaker demand = codes "customer"
default_speaker intent = codes "customer"
default_speaker objection = codes "customer"
default_speaker price_reaction = codes "customer"
default_speaker promise = codes "agent"
default_speaker competitor_mention = codes "any"
default_speaker (SignalType.other t) = codes "any"

-- `sig_type in ("demand", "intent")`
abbrev pub is_need : SignalType → Bool
is_need t = same_type t demand || same_type t intent

-- `sig_type in _NEGATION_TYPES`
abbrev pub is_wish : SignalType → Bool
is_wish t = same_type t demand || same_type t intent || same_type t price_reaction

-- `spec.get("speaker") or default`
abbrev or_text : Text → Text → Text
or_text [] b = b
or_text (c ∷ a) b = c ∷ a

-- `utt.normalized_text or utt.text or ""`
abbrev pub heard : Utterance → String
heard u = or_string u.normalized_text u.text

-- the key of the set `seen`
pub record Key : Type 0 where
  pub type : SignalType
  pub subtype : String
  pub turn : ℕ

pub same_key : Key → Key → Bool
same_key a b = same_type a.type b.type && str_eq a.subtype b.subtype && (a.turn == b.turn)

-- `seen` and `ctx.signals`
pub record Found : Type 0 where
  pub seen : List Key
  pub signals : List Signal

abbrev pub signal_of : SignalType → Pattern → ℕ → Utterance → Signal
signal_of t pattern turn u = record {
  type = t;
  subtype = pattern.subtype;
  speaker = or_string u.speaker "unknown";
  quote = heard u;
  turn = turn;
  confidence = 70;
}

-- one pattern that is matched: its signal is added where its key is new
note_signal : SignalType → Pattern → ℕ → Utterance → Found → Found
unfolding same_key
note_signal t pattern turn u found =
    let key : Key = record { type = t; subtype = pattern.subtype; turn = turn } in
    if any (same_key key) found.seen then found else (record {
      seen = key ∷ found.seen;
      signals = found.signals ++ signal_of t pattern turn u ∷ [];
    })

module _ (chars : Chars) where
  abbrev lower : Text → Text
  lower s = map chars.lower s

  -- the alternatives of the regular expression, each with `\b` behind it
  opens_with : Text → Text → Bool
  opens_with [] [] = true
  opens_with [] (d ∷ s) = not (chars.isword d)
  opens_with (c ∷ w) [] = false
  opens_with (c ∷ w) (d ∷ s) = (chars.lower d == c) && opens_with w s

  -- `\s*` and the alternatives
  opens_question : Text → Bool
  unfolding opens_with openers
  opens_question [] = false
  opens_question (c ∷ s) =
      let rest = opens_question s in
      if chars.isspace c then rest else any (λ w. opens_with w (c ∷ s)) openers

  -- `_is_question(text)`
  pub is_question : Text → Bool
  unfolding opens_question
  is_question text = any (λ c. c == 63) text || opens_question text

  -- `_expected_speaker(sig_type, spec)`
  pub expected_speaker : SignalType → Spec → Text
  expected_speaker t spec = lower (or_text spec.speaker (default_speaker t))

  -- the three gates before the patterns of a type are tried on an utterance
  pub passes : SignalType → Spec → Utterance → Bool
  unfolding expected_speaker is_question find_words
  passes t spec u =
      let raw = codes (heard u) in
      let expected = expected_speaker t spec in
      not (
        not (text_eq expected (codes "any"))
        && not (text_eq (codes (or_string u.speaker "unknown")) expected))
      && not (is_question raw && is_need t)
      && not (is_need t && ltb (length (find_words (lower raw))) 3)

  -- the phrase of a pattern that the utterance is matched by, where it is not negated
  pub matched : SignalType → Pattern → Utterance → Option Text
  unfolding contains is_negated
  matched t pattern u =
      let haystack = lower (codes (heard u)) in
      elim (find (λ p. contains p haystack) (map lower pattern.phrases)) [
        | none ↦ none
        | some p ↦ if is_wish t && is_negated haystack p then none else some p
      ]

  -- the loop over the patterns of a type
  try_patterns : SignalType → ℕ → Utterance → List Pattern → Found → Found
  unfolding note_signal matched
  try_patterns t turn u [] found = found
  try_patterns t turn u (pattern ∷ patterns) found =
      try_patterns t turn u patterns
        (elim (matched t pattern u) [ none ↦ found | some p ↦ note_signal t pattern turn u found ])

  -- the loop over the types
  try_types : ℕ → Utterance → List (SignalType × Spec) → Found → Found
  unfolding try_patterns passes
  try_types turn u [] found = found
  try_types turn u ((t, spec) ∷ signals) found =
      try_types turn u signals
        (if passes t spec u then try_patterns t turn u spec.patterns found else found)

  -- `enumerate(ctx.utterances)`
  try_turns : List (SignalType × Spec) → ℕ → List Utterance → Found → Found
  unfolding try_types
  try_turns signals turn [] found = found
  try_turns signals turn (u ∷ utterances) found =
      try_turns signals (turn + 1) utterances (try_types turn u signals found)

  -- `TaxonomySignalExtraction.run`
  pub extract_signals : Taxonomy → Context → Context
  unfolding try_turns
  extract_signals taxonomy ctx =
      let found =
        try_turns taxonomy.signals 0 ctx.utterances (record { seen = []; signals = ctx.signals }) in
      record ctx { taxonomy_version = taxonomy.version; signals = found.signals }
