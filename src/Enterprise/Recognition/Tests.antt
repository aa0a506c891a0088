-- ===== src/Enterprise/Recognition/Tests.antt =====
-- The recognition of a long recording (voclyp/enterprise/asr/sarvam_worker.py) in two chunks.
use voclyp_dev.Prelude.{◌≡◌, refl, none, some, [], ◌∷◌, codes}
use voclyp_dev.Enterprise.Recognition.{
  Sarvam, transcribe, transcribe_chunked, transcribe_batch, transcribe_rest, collect,
  english_transcript, translated, short,
}

abbrev sarvam : Sarvam
sarvam = record {
  speech_to_text = λ audio. some (audio, codes "hi-IN");
  stt_translate = λ audio. none;
  translate = λ text. some (codes "en");
  batch = none;
  split_wav_chunks = λ audio. codes "ek" ∷ codes "do" ∷ [];
  strip = λ t. t;
  lower = λ t. t;
}

in_chunks :
    transcribe sarvam 30000 [] 45000
    ≡ some (record {
      codemix = codes "ek do";
      english = codes "en en";
      languages = codes "hi" ∷ [];
      duration_ms = 45000;
      path = "rest-chunked";
    })
unfolding transcribe transcribe_chunked transcribe_batch transcribe_rest collect english_transcript
    translated short
in_chunks = refl
