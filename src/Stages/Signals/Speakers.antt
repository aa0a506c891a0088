-- ===== src/Stages/Signals/Speakers.antt =====
-- Who says what a signal reports, under a taxonomy that was loaded (voclyp/taxonomy.py and
-- voclyp/pipeline/stages/signals.py).
use voclyp_dev.Prelude.{
  ℕ, ◌≤◌, ◌≡◌, ◌⊎◌, refl, sym, ap, subst, ◌∙◌, String, Bool, true, ◌&&◌, Option, some, List, [],
  ◌∷◌, arith, leb, Text, codes, All, All-weaken, map,
}
use mathlib.Core.List.{Memᴰ}
use voclyp_dev.Contracts.{
  Signal, SignalType, intent, demand, promise, objection, price_reaction, competitor_mention,
}
use voclyp_dev.Contracts.Context.{Context}
use voclyp_dev.Contracts.Insight.{or_string}
use voclyp_dev.Stages.Taxonomy.{Pack, Spec, Taxonomy, base_of, load_taxonomy}
use voclyp_dev.Stages.Taxonomy.Merging.{Speakerless, load_taxonomy-merges}
use voclyp_dev.Stages.Signals.{Chars, default_speaker, expected_speaker, or_text, extract_signals}
use voclyp_dev.Stages.Signals.Gates.{extract_signals-IsGrounded}

abbrev are_letters : Text → Bool
are_letters [] = true
are_letters (c ∷ s) = leb 97 c && leb c 122 && are_letters s

lower-letters :
    (chars : Chars) (s : Text)
    → ((c : ℕ) → 97 ≤ c → c ≤ 122 → chars.lower c ≡ c)
    → are_letters s ≡ true
    → map chars.lower s ≡ s
lower-letters chars [] fix h = refl
lower-letters chars (c ∷ s) fix h =
    let low : 97 ≤ c = ground arith in
    let high : c ≤ 122 = ground arith in
    let rest = lower-letters chars s fix (ground arith) in let same = fix c low high in cc

default_speaker-letters : (t : SignalType) → are_letters (default_speaker t) ≡ true
default_speaker-letters intent = refl
default_speaker-letters demand = refl
default_speaker-letters promise = refl
default_speaker-letters objection = refl
default_speaker-letters price_reaction = refl
default_speaker-letters competitor_mention = refl
default_speaker-letters (SignalType.other t) = refl

Speakerless-entry :
    (e : SignalType × Spec) (signals : List (SignalType × Spec))
    → Speakerless signals
    → Memᴰ e signals
    → e.1.speaker ≡ []
Speakerless-entry e [] h m = elim m [ ]
Speakerless-entry e (x ∷ signals) h (Memᴰ.head same) = rw same h.0
Speakerless-entry e (x ∷ signals) h (Memᴰ.tail m) = Speakerless-entry e signals h.1 m

-- The utterance's speaker is the one that its signal type is heard from.
abbrev pub HeardFrom : Signal → Type 0
HeardFrom s = (default_speaker s.type ≡ codes "any") ⊎ (codes s.speaker ≡ default_speaker s.type)

expected-default :
    (chars : Chars) (t : SignalType) (spec : Spec) (speaker : Text)
    → ((c : ℕ) → 97 ≤ c → c ≤ 122 → chars.lower c ≡ c)
    → spec.speaker ≡ []
    → (expected_speaker chars t spec ≡ codes "any") ⊎ (speaker ≡ expected_speaker chars t spec)
    → (default_speaker t ≡ codes "any") ⊎ (speaker ≡ default_speaker t)
unfolding expected_speaker
expected-default chars t spec speaker fix bare h =
    let expected : expected_speaker chars t spec ≡ default_speaker t =
      ap (λ w. map chars.lower (or_text w (default_speaker t))) bare
      ∙ lower-letters chars (default_speaker t) fix (default_speaker-letters t) in
    subst (λ e. (e ≡ codes "any") ⊎ (speaker ≡ e)) expected h

-- Under a taxonomy that was loaded, a signal of a type that is heard from one speaker only is said
-- by that speaker, where lower-casing leaves the small letters as they are: demands, intents,
-- objections and price reactions by the customer, promises by the agent.
pub extract_signals-HeardFrom :
    (chars : Chars) (load_pack : String → Option Pack) (industry : String) (pack base : Pack)
    (taxonomy : Taxonomy) (ctx : Context)
    → ((c : ℕ) → 97 ≤ c → c ≤ 122 → chars.lower c ≡ c)
    → load_pack industry ≡ some pack
    → base_of load_pack industry pack ≡ some base
    → load_taxonomy load_pack industry ≡ some taxonomy
    → ctx.signals ≡ []
    → All HeardFrom (extract_signals chars taxonomy ctx).signals
extract_signals-HeardFrom chars load_pack industry pack base taxonomy ctx fix e b l empty =
    let (patterns, bare) = load_taxonomy-merges load_pack industry pack base taxonomy e b l in
    All-weaken (extract_signals chars taxonomy ctx).signals
      (λ s g.
        let (u, at, grounds) = g in
        let says = ap Signal.speaker grounds.says in
        subst (λ w. (default_speaker s.type ≡ codes "any") ⊎ (codes w ≡ default_speaker s.type))
          (sym says)
          (expected-default chars s.type grounds.spec (codes (or_string u.speaker "unknown")) fix
            (Speakerless-entry (s.type, grounds.spec) taxonomy.signals bare grounds.entry)
            grounds.speaks))
      (extract_signals-IsGrounded chars taxonomy ctx empty)
