-- ===== src/Queue.antt =====
-- voclyp/queueing.py: the durable job queue. The `jobs` table is a list of rows in order of their
-- AUTOINCREMENT ids; each method runs under the queue's lock, so it is one step. `now` is the
-- clock's reading, which the methods only store.
mod Tests
pub mod Laws
pub mod Budget
pub mod Cost
use mathlib.Core.Option
use voclyp_dev.Prelude.{
  ℕ, ◌+◌, String, Bool, true, false, ◌&&◌, Option, none, some, List, [], ◌∷◌, ◌++◌, if◌then◌else◌,
  ltb, ◌==◌, str_eq, find, find_last, count, update,
}

-- the payload that ingestion enqueues (voclyp/ingestion.py)
pub record Payload : Type 0 where
  pub audio_paths : List String
  pub industry : String
  pub agent_id : String
  pub store_id : String
  pub customer_name : String

pub data Status : Type 0 where
  pending leased done dead : Status

abbrev pub is_pending : Status → Bool
is_pending pending = true
is_pending _ = false

abbrev pub is_dead : Status → Bool
is_dead dead = true
is_dead _ = false

-- a row of `jobs`
pub record Job : Type 0 where
  pub id : ℕ
  pub tenant_id : String
  pub conversation_id : String
  pub payload : Payload
  pub status : Status
  pub attempts : ℕ
  pub created_at : ℕ
  pub updated_at : ℕ

pub record JobQueue : Type 0 where
  pub jobs : List Job
  pub last_id : ℕ
  pub max_attempts : ℕ

-- `__init__`, over a new database file
abbrev pub init : ℕ → JobQueue
init max_attempts = record { jobs = []; last_id = 0; max_attempts = max_attempts }

unfoldable pub enqueue : ℕ → String → String → Payload → JobQueue → JobQueue × ℕ
enqueue now tenant_id conversation_id payload q =
    let row : Job = record {
      id = q.last_id + 1;
      tenant_id = tenant_id;
      conversation_id = conversation_id;
      payload = payload;
      status = pending;
      attempts = 0;
      created_at = now;
      updated_at = now;
    } in
    (record q { jobs = q.jobs ++ row ∷ []; last_id = q.last_id + 1 }, q.last_id + 1)

-- the dict that `dequeue` returns
pub record Lease : Type 0 where
  pub id : ℕ
  pub tenant_id : String
  pub conversation_id : String
  pub payload : Payload
  pub attempts : ℕ

abbrev lease_of : Job → Lease
lease_of row = record {
  id = row.id;
  tenant_id = row.tenant_id;
  conversation_id = row.conversation_id;
  payload = row.payload;
  attempts = row.attempts + 1;
}

abbrev lease : ℕ → Job → Job
lease now j = record j { status = leased; attempts = j.attempts + 1; updated_at = now }

abbrev oldest_pending : JobQueue → Option Job
oldest_pending q = find (λ j. is_pending j.status) q.jobs

lease_row : ℕ → JobQueue → Option Job → JobQueue × Option Lease
lease_row now q none = (q, none)
lease_row now q (some row) =
    (record q { jobs = update (λ j. j.id == row.id) (lease now) q.jobs }, some (lease_of row))

unfoldable pub dequeue : ℕ → JobQueue → JobQueue × Option Lease
unfolding lease_row
dequeue now q = lease_row now q (oldest_pending q)

abbrev with_status : ℕ → Status → Job → Job
with_status now status j = record j { status = status; updated_at = now }

-- `_set_status`
pub set_status : ℕ → ℕ → Status → JobQueue → JobQueue
set_status now job_id status q = record q {
  jobs = update (λ j. j.id == job_id) (with_status now status) q.jobs;
}

pub complete : ℕ → ℕ → JobQueue → JobQueue
unfolding set_status
complete now job_id q = set_status now job_id done q

unfoldable pub fail : ℕ → ℕ → ℕ → JobQueue → JobQueue × Status
unfolding set_status
fail now job_id attempts q =
    let status = if ltb attempts q.max_attempts then pending else dead in
    (set_status now job_id status q, status)

-- `counts().get("pending")`, the only count that is read
pub pending_count : JobQueue → ℕ
pending_count q = count (λ j. is_pending j.status) q.jobs

-- the latest row of a conversation: its status and attempts
pub lookup_job : String → String → JobQueue → Option (Status × ℕ)
lookup_job tenant_id conversation_id q =
    Option.map (λ j. (j.status, j.attempts))
      (find_last (λ j. str_eq j.tenant_id tenant_id && str_eq j.conversation_id conversation_id)
        q.jobs)

abbrev rearm : ℕ → Job → Job
rearm now j = record j { status = pending; attempts = 0; updated_at = now }

requeue_row : ℕ → JobQueue → Option Job → JobQueue × Bool
requeue_row now q none = (q, false)
requeue_row now q (some row) =
    (record q { jobs = update (λ j. j.id == row.id) (rearm now) q.jobs }, true)

pub requeue_dead : ℕ → String → JobQueue → JobQueue × Bool
unfolding requeue_row
requeue_dead now conversation_id q =
    requeue_row now q
      (find_last (λ j. str_eq j.conversation_id conversation_id && is_dead j.status) q.jobs)
