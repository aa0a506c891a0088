-- ===== src/Worker/Start.antt =====
-- The context that the worker (voclyp/worker.py) gives to a pipeline.
use voclyp_dev.Prelude.{
  ℕ, String, true, false, Option, none, some, List, [], Text, if◌then◌else◌, str_eq,
}
use voclyp_dev.Queue.{Lease}
use voclyp_dev.Contracts.Context.{Context}
use voclyp_dev.Users.{Directory, Public, Voiceprint, get_user, get_voiceprint}

-- `agent.get("name", "")`
name_of : Option Public → Text
name_of none = []
name_of (some u) = u.name

vector_of : Option Voiceprint → List ℕ
vector_of none = []
vector_of (some v) = v.vector

-- `get_user(ctx.agent_id) if ctx.agent_id else None`
agent_of : String → Directory → Option Public
agent_of agent_id d = if str_eq agent_id "" then none else get_user agent_id d

-- the context that the pipeline is given
unfoldable pub context_of : Lease → List String → Directory → Context
unfolding name_of vector_of agent_of
context_of l paths d = record {
  tenant_id = l.tenant_id;
  conversation_id = l.conversation_id;
  industry = l.payload.industry;
  audio_paths = paths;
  agent_id = l.payload.agent_id;
  store_id = l.payload.store_id;
  consent_captured = true;
  customer_name = l.payload.customer_name;
  rep_name = name_of (agent_of l.payload.agent_id d);
  agent_voiceprint = vector_of (get_voiceprint l.tenant_id l.payload.agent_id d);
  agent_voice_similarity = none;
  agent_voice_verified = false;
  utterances = [];
  detected_languages = [];
  code_switching = false;
  normalized_to = "en";
  pii_redactions = [];
  signals = [];
  summary_text = "";
  summary_fields = [];
  audio_deleted_at = none;
  stage_versions = [];
  stage_timings_ms = [];
  provider_usage = [];
  taxonomy_version = "";
}
