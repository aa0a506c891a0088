-- ===== src/Pipeline/Tests.antt =====
-- The pipeline registry (voclyp/pipeline/registry.py) on a configuration of five stages.
use voclyp_dev.Prelude.{ℕ, String, ◌≡◌, refl, true, none, some, List, [], ◌∷◌, member}
use voclyp_dev.Pipeline.{StageSpec, privacy_order, validate_pipeline_config, Stage}
use voclyp_dev.Pipeline.Order.{destroyed, accepted-Precedes}

abbrev spec : String → StageSpec
spec role = record { role = role; impl = "v1" }

abbrev standard : List StageSpec
standard =
    spec "asr"
    ∷ spec "pii_redaction"
    ∷ spec "audio_deletion"
    ∷ spec "signal_extraction"
    ∷ spec "summarization"
    ∷ []

abbrev analysis_first : List StageSpec
analysis_first =
    spec "asr"
    ∷ spec "pii_redaction"
    ∷ spec "signal_extraction"
    ∷ spec "audio_deletion"
    ∷ spec "summarization"
    ∷ []

accepts : validate_pipeline_config standard standard ≡ none
unfolding validate_pipeline_config
accepts = refl

refuses : validate_pipeline_config standard analysis_first ≡ some privacy_order
unfolding validate_pipeline_config
refuses = refl

accepted-Precedes_example :
    member "audio_deletion" ("asr" ∷ "pii_redaction" ∷ "audio_deletion" ∷ []) ≡ true
accepted-Precedes_example =
    accepted-Precedes standard standard ("asr" ∷ "pii_redaction" ∷ "audio_deletion" ∷ [])
      ("summarization" ∷ []) destroyed accepts refl

abbrev counter : String → Stage ℕ
counter name = record { name = name; version = "1.0"; run = λ n. n }
