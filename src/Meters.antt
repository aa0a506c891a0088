-- ===== src/Meters.antt =====
-- The metrics, usage and feedback tables of voclyp/store.py. Timings count hundredths of a
-- millisecond.
use voclyp_dev.Prelude.{
  ℕ, String, Bool, true, ◌&&◌, Option, none, some, List, [], ◌∷◌, ◌++◌, if◌then◌else◌, str_eq,
  select,
}

-- a row of `metrics`
pub record Metric : Type 0 where
  pub tenant_id : String
  pub conversation_id : String
  pub stage : String
  pub ms : ℕ
  pub ts : ℕ

-- a row of `usage`
pub record Usage : Type 0 where
  pub tenant_id : String
  pub conversation_id : String
  pub provider_endpoint : String
  pub calls : ℕ
  pub ts : ℕ

-- a row of `feedback`
pub record Feedback : Type 0 where
  pub tenant_id : String
  pub conversation_id : String
  pub target : String
  pub correction : String
  pub note : String
  pub ts : ℕ

-- the audit entry of a correction, with the value that its text prints
pub data AuditCall : Type 0 where
  feedback_received : String → String → String → AuditCall

pub record Meters : Type 0 where
  pub metrics : List Metric
  pub usage : List Usage
  pub feedback : List Feedback
  pub audits : List AuditCall

-- the loop over the dict of the stages
pub add_metrics : ℕ → String → String → List (String × ℕ) → Meters → Meters
add_metrics ts tenant_id conversation_id [] s = s
add_metrics ts tenant_id conversation_id ((stage, ms) ∷ timings) s =
    let row : Metric = record {
      tenant_id = tenant_id;
      conversation_id = conversation_id;
      stage = stage;
      ms = ms;
      ts = ts;
    } in
    add_metrics ts tenant_id conversation_id timings (record s { metrics = s.metrics ++ row ∷ [] })

-- the loop over the dict of the provider's endpoints
pub add_usage : ℕ → String → String → List (String × ℕ) → Meters → Meters
add_usage ts tenant_id conversation_id [] s = s
add_usage ts tenant_id conversation_id ((endpoint, calls) ∷ used) s =
    let row : Usage = record {
      tenant_id = tenant_id;
      conversation_id = conversation_id;
      provider_endpoint = endpoint;
      calls = calls;
      ts = ts;
    } in
    add_usage ts tenant_id conversation_id used (record s { usage = s.usage ++ row ∷ [] })

pub add_feedback : ℕ → String → String → String → String → String → Meters → Meters
add_feedback ts tenant_id conversation_id target correction note s =
    let row : Feedback = record {
      tenant_id = tenant_id;
      conversation_id = conversation_id;
      target = target;
      correction = correction;
      note = note;
      ts = ts;
    } in
    record s {
      feedback = s.feedback ++ row ∷ [];
      audits = s.audits ++ feedback_received tenant_id conversation_id target ∷ [];
    }

of_conversation : Option String → Feedback → Bool
of_conversation none f = true
of_conversation (some id) f = if str_eq id "" then true else str_eq f.conversation_id id

pub feedback_for : String → Option String → Meters → List Feedback
unfolding of_conversation
feedback_for tenant_id conversation_id s =
    select (λ f. str_eq f.tenant_id tenant_id && of_conversation conversation_id f) s.feedback
