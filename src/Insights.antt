-- ===== src/Insights.antt =====
-- The insights of voclyp/store.py, with the transactional outbox: `save_insight_with_event` commits
-- the insight, the sequence number and the event together, so it is one step.
mod Tests
pub mod Numbering
pub mod View
use voclyp_dev.Prelude.{
  ℕ, ◌+◌, String, Bool, true, false, ◌&&◌, Option, none, some, List, [], ◌∷◌, ◌++◌, if◌then◌else◌,
  ltb, is_some, str_eq, find, select, count, update, delete, order_by, take, map,
}
use voclyp_dev.Prelude.Int.{ℤ}
use voclyp_dev.Scoring.{Rating, Outcome}
use voclyp_dev.Contracts.Insight.{Insight}
use voclyp_dev.Webhooks.{Event}

-- a row of `insights`
pub record Row : Type 0 where
  pub tenant_id : String
  pub conversation_id : String
  pub schema_version : String
  pub body : Insight
  pub created_at : ℕ
  pub store_id : Option String
  pub agent_id : Option String
  pub score : ℤ
  pub rating : Rating
  pub outcome : Outcome

-- a row of `sequences`
pub record Sequence : Type 0 where
  pub tenant_id : String
  pub resource_id : String
  pub seq : ℕ

-- the audit entry of a deletion, with the count that its text prints
pub data AuditCall : Type 0 where
  insight_deleted_on_demand : String → String → ℕ → AuditCall

pub record Ledger : Type 0 where
  pub insights : List Row
  pub sequences : List Sequence
  pub outbox : List Event
  pub audits : List AuditCall

abbrev pub init : Ledger
init = record { insights = []; sequences = []; outbox = []; audits = [] }

-- `text or None`
or_none : String → Option String
or_none s = if str_eq s "" then none else some s

insight_row : String → String → Insight → Row
unfolding or_none
insight_row tenant_id conversation_id doc = record {
  tenant_id = tenant_id;
  conversation_id = conversation_id;
  schema_version = doc.schema_version;
  body = doc;
  created_at = doc.created_at;
  store_id = or_none doc.store_id;
  agent_id = or_none doc.agent_id;
  score = doc.scoring.score;
  rating = doc.scoring.rating;
  outcome = doc.scoring.outcome;
}

-- the primary key
abbrev pub row_of : String → String → Row → Bool
row_of tenant_id conversation_id r =
    str_eq r.tenant_id tenant_id && str_eq r.conversation_id conversation_id

-- `INSERT OR REPLACE`
put_row : String → String → Insight → List Row → List Row
unfolding insight_row
put_row tenant_id conversation_id doc rows =
    delete (row_of tenant_id conversation_id) rows ++ insight_row tenant_id conversation_id doc ∷ []

pub save_insight : String → String → Insight → Ledger → Ledger
unfolding put_row
save_insight tenant_id conversation_id doc s = record s {
  insights = put_row tenant_id conversation_id doc s.insights;
}

body_of : Option Row → Option Insight
body_of none = none
body_of (some r) = some r.body

pub get_insight : String → String → Ledger → Option Insight
unfolding body_of
get_insight tenant_id conversation_id s =
    body_of (find (row_of tenant_id conversation_id) s.insights)

abbrev backwards : List Row → List Row
backwards [] = []
backwards (r ∷ rows) = backwards rows ++ r ∷ []

-- `ORDER BY created_at DESC LIMIT ?`
pub list_insights : String → ℕ → Ledger → List Insight
list_insights tenant_id limit s = map Row.body (
    take limit
      (backwards (order_by Row.created_at (select (λ r. str_eq r.tenant_id tenant_id) s.insights))))

pub delete_conversation : String → String → Ledger → Ledger × Bool
delete_conversation tenant_id conversation_id s =
    let rowcount = count (row_of tenant_id conversation_id) s.insights in
    (
      record s {
        insights = delete (row_of tenant_id conversation_id) s.insights;
        audits = s.audits ++ insight_deleted_on_demand tenant_id conversation_id rowcount ∷ [];
      },
      ltb 0 rowcount,
    )

abbrev pub sequence_of : String → String → Sequence → Bool
sequence_of tenant_id resource_id r =
    str_eq r.tenant_id tenant_id && str_eq r.resource_id resource_id

-- `INSERT … ON CONFLICT DO UPDATE SET seq=seq+1`
bump_sequence : String → String → List Sequence → List Sequence
bump_sequence tenant_id resource_id rows =
    let row : Sequence = record { tenant_id = tenant_id; resource_id = resource_id; seq = 1 } in
    if is_some (find (sequence_of tenant_id resource_id) rows)
    then update (sequence_of tenant_id resource_id) (λ r. record r { seq = r.seq + 1 }) rows
    else rows ++ row ∷ []

-- the sequence number of a resource, 0 for one that has none
seq_in : Option Sequence → ℕ
seq_in none = 0
seq_in (some r) = r.seq

pub seq_of : String → String → List Sequence → ℕ
unfolding seq_in
seq_of tenant_id resource_id rows = seq_in (find (sequence_of tenant_id resource_id) rows)

-- `save_insight_with_event`, given the new event's id, its type and the resource's status
pub save_insight_with_event :
    ℕ → String → String → String → String → String → Insight → Ledger → Ledger
unfolding put_row bump_sequence
save_insight_with_event now event_id event_type resource_status tenant_id conversation_id doc s =
    let sequences = bump_sequence tenant_id conversation_id s.sequences in
    let event : Event = record {
      event_id = event_id;
      tenant_id = tenant_id;
      event_type = event_type;
      resource = "insight";
      resource_id = conversation_id;
      resource_status = resource_status;
      sequence = seq_of tenant_id conversation_id sequences;
      occurred_at = now;
      fanned_out = false;
    } in
    record s {
      insights = put_row tenant_id conversation_id doc s.insights;
      sequences = sequences;
      outbox = s.outbox ++ event ∷ [];
    }
