-- ===== src/Worker/Tests.antt =====
-- One job (voclyp/worker.py), with a pipeline that destroys the audio and one that raises. A job may
-- be tried once.
use voclyp_dev.Prelude.{
  ◌≡◌, refl, arith, String, true, false, none, some, [], ◌∷◌, List, str_eq, All, lookup,
}
use voclyp_dev.Webhooks.Dispatch.{responded, World as Network}
use voclyp_dev.Queue.{JobQueue, Lease, Payload, init, enqueue, dequeue, fail, pending_count}
use voclyp_dev.Queue.Budget.{IsValid, here, next, enqueued, Reach-IsValid}
use voclyp_dev.Queue.Cost.{cost}
use voclyp_dev.Contracts.Context.{Context}
use voclyp_dev.Pipeline.{run_pipeline}
use voclyp_dev.Users.{get_voiceprint}
use voclyp_dev.Contracts.Insight.{build_insight}
use voclyp_dev.Worker.{
  World, Work, Tick, Site, stored, dead_lettered, process_one, Files, metering, delete_files,
  stage_audio, run_stages,
}
use voclyp_dev.Worker.Start.{context_of}
use voclyp_dev.Worker.Lost.{Lost, process_one-Lost}
use voclyp_dev.Worker.Loops.{drain, run_forever}
use voclyp_dev.Worker.Loops.Serving.{run_forever-empties}
use voclyp_dev.Worker.Loops.Drain.{Ends, drain-Ends}
use voclyp_dev.Worker.Stored.{Settled, process_one-Settled}
use voclyp_dev.Worker.Originals.{process_one-kept}
use voclyp_dev.Worker.Spares.{audio_deletion, audio_deletion-Spares, Spares}

abbrev network : Network
network = record {
  urlsplit = λ url. record {
    scheme = "https";
    hostname = some "crm.example";
    port = none;
    username = none;
    password = none;
  };
  getaddrinfo = λ host port. none;
  urlopen = λ e v. responded 200;
  uniform = λ n. 1000;
  allow_insecure_webhooks = false;
}

-- a stage that raises after it has read the audio
abbrev failing : Work
failing = record { name = "transcription"; version = "1"; run = λ ctx files. (files, none) }

abbrev world : List Work → World
world stages = record {
  pipeline_for = λ industry. some stages;
  work_path = λ conversation_id i. "work";
  in_work = λ conversation_id path. str_eq path "work";
  network = network;
}

abbrev payload : Payload
payload = record {
  audio_paths = "p0" ∷ [];
  industry = "retail";
  agent_id = "";
  store_id = "s1";
  customer_name = "";
}

abbrev queue : JobQueue
queue = (enqueue 1 "t1" "c1" payload (init 1)).0

queue-IsValid : IsValid queue
queue-IsValid = Reach-IsValid (omega arith) (next here (enqueued 1 "t1" "c1" payload (init 1)))

abbrev site : Site
site = record {
  queue = queue;
  files = ("p0", 1 ∷ 2 ∷ []) ∷ [];
  directory = record { users = []; voiceprints = []; audits = [] };
  ledger = record { insights = []; sequences = []; outbox = []; audits = [] };
  visits = record { sessions = []; chunks = [] };
  meters = record { metrics = []; usage = []; feedback = []; audits = [] };
  hooks = record { endpoints = []; deliveries = []; last_delivery = 0; outbox = []; audits = [] };
  audits = [];
}

abbrev tick : Tick
tick = record { now = 5; event_id = "evt_1"; fault = none }

one_attempt : cost queue ≡ 1
unfolding enqueue
one_attempt = refl

drain-Ends_example : Ends (drain (world (failing ∷ [])) 2 (λ n. tick) 0 site)
drain-Ends_example =
    drain-Ends (world (failing ∷ [])) 2 (λ n. tick) 0 site queue-IsValid
      (omega (arith, one_attempt))

-- the job is dead after the round, and the worker goes on
run_forever-empties_example :
    pending_count (run_forever (world (failing ∷ [])) (tick ∷ []) site).queue ≡ 0
run_forever-empties_example =
    run_forever-empties (world (failing ∷ [])) (tick ∷ []) site queue-IsValid
      (omega (arith, one_attempt))

abbrev failing_first : World
failing_first = world (failing ∷ audio_deletion 6 ∷ [])

abbrev left_by_failure : Site
left_by_failure = (process_one failing_first tick site).0

raises : process_one failing_first tick site ≡ (left_by_failure, dead_lettered)
unfolding process_one enqueue dequeue fail run_pipeline
raises = refl

spares : (industry : String) → All (Spares "p0") (failing ∷ audio_deletion 6 ∷ [])
spares industry = ((λ ctx files h. (refl, tt)), (audio_deletion-Spares 6 "p0", tt))

process_one-kept_example : lookup "p0" left_by_failure.files ≡ lookup "p0" site.files
process_one-kept_example =
    process_one-kept failing_first "p0" (λ c. refl) (λ c i. refl) spares tick site left_by_failure
      dead_lettered refl raises refl

-- what the pipeline that only destroys the audio makes of the job
abbrev context : Context
context = record {
  tenant_id = "t1";
  conversation_id = "c1";
  industry = "retail";
  audio_paths = "work" ∷ [];
  agent_id = "";
  store_id = "s1";
  consent_captured = true;
  customer_name = "";
  rep_name = [];
  agent_voiceprint = [];
  agent_voice_similarity = none;
  agent_voice_verified = false;
  utterances = [];
  detected_languages = [];
  code_switching = false;
  normalized_to = "en";
  pii_redactions = [];
  signals = [];
  summary_text = "";
  summary_fields = [];
  audio_deleted_at = some 6;
  stage_versions = ("audio_deletion", "1.1") ∷ [];
  stage_timings_ms = [];
  provider_usage = [];
  taxonomy_version = "";
}

abbrev left_by_success : Site
left_by_success = (process_one (world (audio_deletion 6 ∷ [])) tick site).0

stores :
    process_one (world (audio_deletion 6 ∷ [])) tick site
    ≡ (left_by_success, stored (build_insight 5 context))
unfolding process_one enqueue dequeue fail run_pipeline get_voiceprint audio_deletion
stores = refl

process_one-Settled_example :
    (l : Lease) × ((dequeue 5 site.queue).1 ≡ some l)
    × Settled (world (audio_deletion 6 ∷ [])) l (build_insight 5 context) left_by_success
process_one-Settled_example =
    process_one-Settled (world (audio_deletion 6 ∷ [])) tick site left_by_success
      (build_insight 5 context) stores

-- the metrics cannot be written
abbrev late_tick : Tick
late_tick = record { now = 5; event_id = "evt_1"; fault = some metering }

abbrev lease : Lease
lease = record { id = 1; tenant_id = "t1"; conversation_id = "c1"; payload = payload; attempts = 1 }

abbrev staged_copy : Files
staged_copy = ("p0", 1 ∷ 2 ∷ []) ∷ ("work", 1 ∷ 2 ∷ []) ∷ []

abbrev deleting_world : World
deleting_world = world (audio_deletion 6 ∷ [])

taken : dequeue 5 site.queue ≡ ((dequeue 5 site.queue).0, some lease)
unfolding enqueue dequeue
taken = refl

staged : stage_audio deleting_world "c1" ("p0" ∷ []) site.files ≡ (staged_copy, some ("work" ∷ []))
unfolding stage_audio
staged = refl

ran :
    run_stages
      (deleting_world.pipeline_for "retail")
      (context_of lease ("work" ∷ []) site.directory)
      staged_copy
    ≡ (("p0", 1 ∷ 2 ∷ []) ∷ [], some context)
unfolding run_stages run_pipeline context_of get_voiceprint audio_deletion delete_files
ran = refl

process_one-Lost_example :
    Lost deleting_world 5 lease (dequeue 5 site.queue).0 (process_one deleting_world late_tick site)
process_one-Lost_example =
    process_one-Lost deleting_world metering late_tick site (dequeue 5 site.queue).0 lease
      staged_copy (("p0", 1 ∷ 2 ∷ []) ∷ []) ("work" ∷ []) context refl refl taken staged ran
