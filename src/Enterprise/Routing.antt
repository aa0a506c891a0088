-- ===== src/Enterprise/Routing.antt =====
-- The routing tables of `LocalStore` (voclyp/enterprise/store.py): `routing_outbox` and
-- `failed_routing_outbox`, of a store with the schema of one tenant open. Fresh ids and the clock,
-- in seconds, are arguments.
pub mod Payloads
pub mod Dispatch
use voclyp_dev.Prelude.{
  ℕ, ◌+◌, String, Bool, true, false, ◌&&◌, ◌||◌, Option, none, some, List, [], ◌∷◌, ◌++◌,
  if◌then◌else◌, leb, is_some, str_eq, find, select, update, delete, order_by, take, Text,
}
use voclyp_dev.Prelude.Keys.{with_key}

-- the three channels, and their place in ORDER BY channel
pub data Channel : Type 0 where
  push whatsapp zoho : Channel

abbrev pub rank : Channel → ℕ
rank push = 0
rank whatsapp = 1
rank zoho = 2

abbrev pub same_channel : Channel → Channel → Bool
same_channel push push = true
same_channel whatsapp whatsapp = true
same_channel zoho zoho = true
same_channel _ _ = false

pub data Status : Type 0 where
  held pending delivering delivered failed skipped : Status

-- the values that `payload` encodes, one constructor for each channel
pub data Payload : Type 0 where
  lead : String → Text → Payload
  message : String → Text → Text → Bool → Payload
  notice : String → String → Bool → Text → Payload

-- a row of `routing_outbox`
pub record Row : Type 0 where
  pub id : String
  pub tenant_id : String
  pub conversation_id : String
  pub channel : Channel
  pub status : Status
  pub attempts : ℕ
  pub max_attempts : ℕ
  pub idempotency_key : Text
  pub payload : Payload
  pub response : Option Text
  pub detail : Option Text
  pub next_retry_at : ℕ
  pub created_at : ℕ
  pub updated_at : ℕ

-- a row of `failed_routing_outbox`
pub record Failed : Type 0 where
  pub id : String
  pub tenant_id : String
  pub conversation_id : String
  pub channel : Channel
  pub attempts : ℕ
  pub idempotency_key : Text
  pub payload : Payload
  pub last_response : Option Text
  pub failure_reason : Text
  pub original_created_at : ℕ
  pub failed_at : ℕ

pub record Tables : Type 0 where
  pub outbox : List Row
  pub dead : List Failed

-- the constraint UNIQUE (conversation_id, channel)
abbrev pub at_channel : String → Channel → Row → Bool
at_channel conversation_id channel r =
    str_eq r.conversation_id conversation_id && same_channel r.channel channel

-- `INSERT OR IGNORE`, on a row with the defaults filled in
pub insert_routing : Row → Tables → Tables
insert_routing row t =
    if is_some (find (with_key Row.id row.id) t.outbox)
      || is_some (find (at_channel row.conversation_id row.channel) t.outbox)
    then t
    else record t { outbox = t.outbox ++ row ∷ [] }

pub get_routing_for_conversation : String → Tables → List Row
get_routing_for_conversation conversation_id t =
    order_by (λ r. rank r.channel) (select (λ r. str_eq r.conversation_id conversation_id) t.outbox)

pub get_routing : String → Channel → Tables → Option Row
get_routing conversation_id channel t = find (at_channel conversation_id channel) t.outbox

-- `update_routing(id, **fields)`; `fields` assigns the columns
pub update_routing : ℕ → String → (Row → Row) → Tables → Tables
update_routing now id fields t = record t {
  outbox =
      update (with_key Row.id id) (λ r. let r' = fields r in record r' { updated_at = now })
        t.outbox;
}

-- `status IN ('pending','failed')`
abbrev pub retried : Status → Bool
retried pending = true
retried failed = true
retried _ = false

pub due_routing : ℕ → ℕ → Tables → List Row
due_routing now limit t = take limit (
    order_by Row.next_retry_at (select (λ r. retried r.status && leb r.next_retry_at now) t.outbox))

dead_row : ℕ → String → ℕ → Text → Row → Failed
dead_row now dlq_id attempts reason current = record {
  id = dlq_id;
  tenant_id = current.tenant_id;
  conversation_id = current.conversation_id;
  channel = current.channel;
  attempts = attempts;
  idempotency_key = current.idempotency_key;
  payload = current.payload;
  last_response = current.response;
  failure_reason = reason;
  original_created_at = current.created_at;
  failed_at = now;
}

-- `move_to_dlq(row, reason)`, where the row given carries the attempts
pub move_to_dlq : ℕ → String → String → ℕ → Text → Tables → Tables
unfolding dead_row
move_to_dlq now dlq_id id attempts reason t = elim (find (with_key Row.id id) t.outbox) [
  | none ↦ t
  | some current ↦ record {
    outbox = delete (with_key Row.id id) t.outbox;
    dead = t.dead ++ dead_row now dlq_id attempts reason current ∷ [];
  }
]

pub get_dlq_for_conversation : String → Tables → List Failed
get_dlq_for_conversation conversation_id t =
    select (λ (f : Failed). str_eq f.conversation_id conversation_id) t.dead
