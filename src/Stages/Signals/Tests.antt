-- ===== src/Stages/Signals/Tests.antt =====
-- The extraction stage (voclyp/pipeline/stages/signals.py) on a conversation of two turns.
use voclyp_dev.Prelude.{
  ℕ, ◌+◌, ◌≤◌, ◌≡◌, refl, String, true, false, ◌&&◌, ◌==◌, leb, Option, none, some, List, [], ◌∷◌,
  if◌then◌else◌, arith, codes, All,
}
use voclyp_dev.Contracts.{SignalType, demand, objection}
use voclyp_dev.Contracts.Context.{Utterance, Context}
use voclyp_dev.Stages.Taxonomy.{
  Pattern, Pack, Spec, Taxonomy, base_of, load_taxonomy, same_type, merged, merge, extend, has_type,
  universal,
}
use voclyp_dev.Stages.Words.{find_text, find_words, contains}
use voclyp_dev.Stages.Signals.{
  Chars, is_negated, is_negator, negators, strip_apostrophes, is_question, opens_question, openers,
  opens_with, passes, expected_speaker, matched, same_key, note_signal, try_patterns, try_types,
  try_turns, extract_signals,
}
use voclyp_dev.Stages.Signals.Gates.{IsGrounded, extract_signals-IsGrounded}
use voclyp_dev.Stages.Signals.Speakers.{HeardFrom, extract_signals-HeardFrom}
use voclyp_dev.Stages.Signals.Once.{Distinct, extract_signals-Distinct}

abbrev chars : Chars
chars = record {
  lower = λ c. if leb 65 c && leb c 90 then c + 32 else c;
  isspace = λ c. c == 32;
  isword = λ c. leb 97 c && leb c 122;
}

small : (c : ℕ) → 97 ≤ c → c ≤ 122 → chars.lower c ≡ c
small c low high = ground arith

abbrev pack : Pack
pack = record {
  extends = "";
  version = some "1";
  signals =
      (
        demand,
        record {
          speaker = [];
          patterns = record { subtype = "emi"; phrases = codes "EMI" ∷ [] } ∷ [];
        },
      )
      ∷ [];
  summary_fields = [];
}

abbrev load_pack : String → Option Pack
load_pack industry = some pack

abbrev bare : List Pattern → Spec
bare patterns = record { speaker = []; patterns = patterns }

abbrev taxonomy : Taxonomy
taxonomy = record {
  industry = "base";
  version = "base-1+base-1";
  signals =
      (objection, bare [])
      ∷ (SignalType.intent, bare [])
      ∷ (demand, bare (record { subtype = "emi"; phrases = codes "EMI" ∷ [] } ∷ []))
      ∷ (SignalType.competitor_mention, bare [])
      ∷ (SignalType.price_reaction, bare [])
      ∷ (SignalType.promise, bare [])
      ∷ [];
  summary_fields = [];
}

abbrev own : Pack
own = record { extends = ""; version = some "1"; signals = []; summary_fields = [] }

is_base : base_of load_pack "base" pack ≡ some own
unfolding base_of
is_base = refl

is_loaded : load_taxonomy load_pack "base" ≡ some taxonomy
unfolding load_taxonomy merged merge extend has_type same_type universal base_of
is_loaded = refl

abbrev said : String → String → Utterance
said speaker text = record {
  text = text;
  speaker = speaker;
  normalized_text = "";
  languages = [];
  speaker_id = "";
  start_time = 0;
  end_time = 0;
}

abbrev context : Context
context = record {
  tenant_id = "t1";
  conversation_id = "c1";
  industry = "base";
  audio_paths = [];
  agent_id = "";
  store_id = "";
  consent_captured = true;
  customer_name = "";
  rep_name = [];
  agent_voiceprint = [];
  agent_voice_similarity = none;
  agent_voice_verified = false;
  utterances = said "agent" "I can offer EMI here" ∷ said "customer" "mujhe EMI chahiye" ∷ [];
  detected_languages = [];
  code_switching = false;
  normalized_to = "en";
  pii_redactions = [];
  signals = [];
  summary_text = "";
  summary_fields = [];
  audio_deleted_at = none;
  stage_versions = [];
  stage_timings_ms = [];
  provider_usage = [];
  taxonomy_version = "";
}

extracted :
    (extract_signals chars taxonomy context).signals
    ≡ record {
      type = demand;
      subtype = "emi";
      speaker = "customer";
      quote = "mujhe EMI chahiye";
      turn = 1;
      confidence = 70;
    }
      ∷ []
unfolding extract_signals try_turns try_types try_patterns note_signal same_key matched passes
    expected_speaker is_question opens_question openers opens_with contains find_words find_text
    is_negated is_negator strip_apostrophes negators same_type
extracted = refl

not_negated : is_negated (codes "casino mein bahut maza aaya phir") (codes "phir") ≡ false
unfolding is_negated find_words find_text is_negator strip_apostrophes negators
not_negated = refl

-- the window begins inside the word `casino`
cut_word : is_negated (codes "casino dekhaa phir poocha mujhe emi do") (codes "emi") ≡ true
unfolding is_negated find_words find_text is_negator strip_apostrophes negators
cut_word = refl

question : is_question chars (codes " Kya soft chahiye") ≡ true
unfolding is_question opens_question openers opens_with
question = refl

extract_signals-IsGrounded_example :
    All
      (IsGrounded chars taxonomy.signals context.utterances)
      (extract_signals chars taxonomy context).signals
extract_signals-IsGrounded_example = extract_signals-IsGrounded chars taxonomy context refl

extract_signals-HeardFrom_example : All HeardFrom (extract_signals chars taxonomy context).signals
extract_signals-HeardFrom_example =
    extract_signals-HeardFrom chars load_pack "base" pack own taxonomy context small refl is_base
      is_loaded refl

signals_distinct : Distinct (extract_signals chars taxonomy context).signals
signals_distinct = extract_signals-Distinct chars taxonomy context refl
