-- ===== src/Contracts/Insight.antt =====
-- `build_insight` of voclyp/contracts.py: the insight document of a finished conversation.
use voclyp_dev.Prelude.{
  ℕ, ◌+◌, String, Bool, Option, none, some, List, [], ◌∷◌, if◌then◌else◌, ltb, length, str_eq, add,
  Text, codes,
}
use voclyp_dev.Contracts.{Signal}
use voclyp_dev.Contracts.Context.{Utterance, Context}
use voclyp_dev.Scoring.{Scoring, score_conversation}

-- the blocks of the document
pub record Languages : Type 0 where
  pub detected : List String
  pub normalized_to : String
  pub code_switching : Bool

pub record Speakers : Type 0 where
  pub count : ℕ
  pub turns : ℕ
  pub agent_name : Text
  pub customer_name : String
  pub agent_voice_verified : Bool
  pub agent_voice_similarity : Option ℕ

-- an entry of `transcript`; the two times are left out together
pub record Turn : Type 0 where
  pub turn : ℕ
  pub speaker : String
  pub text : String
  pub normalized_text : String
  pub languages : List String
  pub times : Option (ℕ × ℕ)

pub record Insight : Type 0 where
  pub schema_version : String
  pub tenant_id : String
  pub conversation_id : String
  pub industry : String
  pub agent_id : String
  pub store_id : String
  pub languages : Languages
  pub speakers : Speakers
  pub transcript : List Turn
  pub signals : List Signal
  pub scoring : Scoring
  pub summary_text : String
  pub summary_fields : List (String × String)
  pub consent_captured : Bool
  pub pii_redactions : List (String × ℕ)
  pub audio_deleted_at : Option ℕ
  pub stage_versions : List (String × String)
  pub taxonomy_version : String
  pub created_at : ℕ

-- `a or b`
abbrev pub or_string : String → String → String
or_string a b = if str_eq a "" then b else a

-- `ctx.rep_name or "Sales rep"`
rep_label : Text → Text
rep_label [] = codes "Sales rep"
rep_label (c ∷ name) = c ∷ name

-- the set comprehension of the speakers that are known
known_speakers : List Utterance → List String
known_speakers [] = []
known_speakers (u ∷ utterances) =
    let rest = known_speakers utterances in
    if str_eq u.speaker "unknown" then rest else add u.speaker rest

turn_of : ℕ → Utterance → Turn
turn_of i u = record {
  turn = i;
  speaker = u.speaker;
  text = u.text;
  normalized_text = or_string u.normalized_text u.text;
  languages = u.languages;
  times = if ltb u.start_time u.end_time then some (u.start_time, u.end_time) else none;
}

-- `enumerate(ctx.utterances)`
transcript_from : ℕ → List Utterance → List Turn
unfolding turn_of
transcript_from i [] = []
transcript_from i (u ∷ utterances) = turn_of i u ∷ transcript_from (i + 1) utterances

unfoldable pub build_insight : ℕ → Context → Insight
unfolding rep_label known_speakers transcript_from
build_insight now ctx = record {
  schema_version = "1.0";
  tenant_id = ctx.tenant_id;
  conversation_id = ctx.conversation_id;
  industry = ctx.industry;
  agent_id = ctx.agent_id;
  store_id = ctx.store_id;
  languages = record {
    detected = ctx.detected_languages;
    normalized_to = ctx.normalized_to;
    code_switching = ctx.code_switching;
  };
  speakers = record {
    count = length (known_speakers ctx.utterances);
    turns = length ctx.utterances;
    agent_name = rep_label ctx.rep_name;
    customer_name = "Customer";
    agent_voice_verified = ctx.agent_voice_verified;
    agent_voice_similarity = ctx.agent_voice_similarity;
  };
  transcript = transcript_from 0 ctx.utterances;
  signals = ctx.signals;
  scoring = score_conversation ctx.signals;
  summary_text = ctx.summary_text;
  summary_fields = ctx.summary_fields;
  consent_captured = ctx.consent_captured;
  pii_redactions = ctx.pii_redactions;
  audio_deleted_at = ctx.audio_deleted_at;
  stage_versions = ctx.stage_versions;
  taxonomy_version = ctx.taxonomy_version;
  created_at = now;
}
