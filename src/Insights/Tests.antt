-- ===== src/Insights/Tests.antt =====
-- One insight of voclyp/store.py, written with its event and once more without.
use voclyp_dev.Prelude.{◌≡◌, refl, false, true, none, [], ◌∷◌}
use voclyp_dev.Contracts.Context.{Context}
use voclyp_dev.Contracts.Insight.{Insight, build_insight}
use voclyp_dev.Insights.{Ledger, init, get_insight, save_insight_with_event, seq_of, bump_sequence}
use voclyp_dev.Insights.Numbering.{
  Reach, here, next, saved_with_event, numbers, up_to, Reach-numbers,
}
use voclyp_dev.Insights.View.{save, remove, apply_all, meant_all, apply_all-meant_all}

abbrev context : Context
context = record {
  tenant_id = "t1";
  conversation_id = "cv1";
  industry = "retail";
  audio_paths = [];
  agent_id = "a1";
  store_id = "";
  consent_captured = true;
  customer_name = "";
  rep_name = [];
  agent_voiceprint = [];
  agent_voice_similarity = none;
  agent_voice_verified = false;
  utterances =
      record {
        text = "hello";
        speaker = "agent";
        normalized_text = "";
        languages = "en" ∷ [];
        speaker_id = "S1";
        start_time = 0;
        end_time = 900;
      }
      ∷ [];
  detected_languages = "en" ∷ [];
  code_switching = false;
  normalized_to = "en";
  pii_redactions = [];
  signals = [];
  summary_text = "";
  summary_fields = [];
  audio_deleted_at = none;
  stage_versions = [];
  stage_timings_ms = [];
  provider_usage = [];
  taxonomy_version = "1";
}

abbrev insight : Insight
insight = build_insight 7 context

abbrev emitted : Ledger
emitted = save_insight_with_event 8 "evt_1" "insights.ready" "ready" "t1" "cv1" insight init

abbrev emitted_again : Ledger
emitted_again =
    save_insight_with_event 9 "evt_2" "insights.ready" "ready" "t1" "cv1" insight emitted

numbered : numbers "t1" "cv1" emitted_again ≡ 1 ∷ 2 ∷ []
unfolding save_insight_with_event bump_sequence seq_of
numbered = refl

reached : Reach init emitted_again
reached =
    next (next here (saved_with_event 8 "evt_1" "insights.ready" "ready" "t1" "cv1" insight init))
      (saved_with_event 9 "evt_2" "insights.ready" "ready" "t1" "cv1" insight emitted)

Reach-numbers_example :
    numbers "t1" "cv1" emitted_again ≡ up_to (seq_of "t1" "cv1" emitted_again.sequences)
Reach-numbers_example = Reach-numbers "t1" "cv1" reached

apply_all-meant_all_example :
    get_insight "t1" "cv1" (apply_all (save "t1" "cv1" insight ∷ remove "t1" "cv2" ∷ []) init)
    ≡ meant_all
        (save "t1" "cv1" insight ∷ remove "t1" "cv2" ∷ [])
        (λ t c. get_insight t c init)
        "t1"
        "cv1"
apply_all-meant_all_example =
    apply_all-meant_all (save "t1" "cv1" insight ∷ remove "t1" "cv2" ∷ []) init "t1" "cv1"
