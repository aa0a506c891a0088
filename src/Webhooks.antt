-- ===== src/Webhooks.antt =====
-- The webhook tables of voclyp/store.py: the transactional outbox, the endpoints and the ledger of
-- deliveries. Tables are lists of rows in order of their row ids, and each method runs under the
-- store's lock, so it is one step. Ids, secrets and times come from the system and are arguments;
-- clock times are numbers in the order of their ISO texts, retry times count milliseconds. An
-- `audit` call is recorded with the values that its texts print; Audit models the log itself.
mod Tables
pub mod Dispatch
pub mod Reports
pub use Tables.{
  EndpointStatus, active, disabled, Endpoint, DeliveryStatus, pending, retrying, delivered, dead,
  blocked, Detail, no_detail, endpoint_missing, ssrf, raised, Delivery, Event, AuditCall,
  webhook_registered, webhook_secret_rotated, webhook_status, dlq_replayed, delivery_dead_lettered,
  Store, init,
}
use mathlib.Core.Option
use voclyp_dev.Prelude.{
  ℕ, ◌+◌, String, Bool, true, false, not, ◌&&◌, ◌||◌, Option, none, some, List, [], ◌∷◌, ◌++◌,
  if◌then◌else◌, ltb, leb, ◌==◌, str_eq, is_some, find, select, update, count, order_by, take,
  member,
}

abbrev log : AuditCall → Store → Store
log call s = record s { audits = s.audits ++ call ∷ [] }

-- the outbox side of `unfanned_events`, `get_event` and `mark_fanned_out`
pub unfanned_events : ℕ → Store → List Event
unfanned_events limit s =
    take limit (order_by Event.occurred_at (select (λ e. not e.fanned_out) s.outbox))

pub get_event : String → String → Store → Option Event
get_event tenant_id event_id s =
    find (λ e. str_eq e.tenant_id tenant_id && str_eq e.event_id event_id) s.outbox

pub mark_fanned_out : String → Store → Store
mark_fanned_out event_id s = record s {
  outbox = update (λ e. str_eq e.event_id event_id) (λ e. record e { fanned_out = true }) s.outbox;
}

-- `add_webhook`, given the new id and secret
pub add_webhook : ℕ → String → String → String → String → List String → Store → Store
add_webhook now endpoint_id secret tenant_id url event_types s =
    let row : Endpoint = record {
      id = endpoint_id;
      tenant_id = tenant_id;
      url = url;
      secret = secret;
      secret_prev = none;
      rotated_at = none;
      event_types = event_types;
      status = active;
      created_at = now;
    } in
    log (webhook_registered tenant_id endpoint_id url)
      (record s { endpoints = s.endpoints ++ row ∷ [] })

abbrev pub owned : String → String → Endpoint → Bool
owned tenant_id endpoint_id e = str_eq e.tenant_id tenant_id && str_eq e.id endpoint_id

pub get_endpoint : String → String → Store → Option Endpoint
get_endpoint tenant_id endpoint_id s = find (owned tenant_id endpoint_id) s.endpoints

abbrev pub is_active : EndpointStatus → Bool
is_active active = true
is_active disabled = false

-- the filter of `endpoints_for` on the event type
abbrev pub subscribed : String → Endpoint → Bool
subscribed event_type e = member "*" e.event_types || member event_type e.event_types

-- `endpoints_for(tenant_id, event_type)`, with its default status
pub endpoints_for : String → String → Store → List Endpoint
endpoints_for tenant_id event_type s =
    select (subscribed event_type)
      (select (λ e. str_eq e.tenant_id tenant_id && is_active e.status) s.endpoints)

pub rotate_webhook_secret : ℕ → String → String → String → Store → Store × Option String
rotate_webhook_secret now secret tenant_id endpoint_id s =
    if is_some (get_endpoint tenant_id endpoint_id s)
    then (
      log (webhook_secret_rotated tenant_id endpoint_id) (record s {
        endpoints =
            update (owned tenant_id endpoint_id)
              (λ e. record e {
                secret = secret;
                secret_prev = some e.secret;
                rotated_at = some now;
              })
              s.endpoints;
      }),
      some secret,
    )
    else (s, none)

pub set_endpoint_status : String → String → EndpointStatus → Store → Store × Bool
set_endpoint_status tenant_id endpoint_id status s =
    let rowcount = count (owned tenant_id endpoint_id) s.endpoints in
    let changed = record s {
      endpoints =
          update (owned tenant_id endpoint_id) (λ e. record e { status = status }) s.endpoints;
    } in
    if ltb 0 rowcount
    then (log (webhook_status tenant_id status endpoint_id) changed, true)
    else (changed, false)

-- the UNIQUE (endpoint_id, event_id) constraint
abbrev pub same_delivery : String → String → Delivery → Bool
same_delivery endpoint_id event_id d =
    str_eq d.endpoint_id endpoint_id && str_eq d.event_id event_id

-- `INSERT OR IGNORE`
pub create_delivery : ℕ → ℕ → String → String → String → Store → Store
create_delivery now due_at tenant_id endpoint_id event_id s =
    let row : Delivery = record {
      id = s.last_delivery + 1;
      tenant_id = tenant_id;
      endpoint_id = endpoint_id;
      event_id = event_id;
      attempt = 0;
      status = pending;
      response_code = none;
      detail = no_detail;
      next_retry_at = due_at;
      updated_at = now;
    } in
    if is_some (find (same_delivery endpoint_id event_id) s.deliveries)
    then s
    else record s { deliveries = s.deliveries ++ row ∷ []; last_delivery = s.last_delivery + 1 }

-- `status IN ('pending','retrying')`
abbrev pub in_flight : DeliveryStatus → Bool
in_flight pending = true
in_flight retrying = true
in_flight _ = false

pub due_deliveries : ℕ → ℕ → Store → List Delivery
due_deliveries now limit s = take limit (
    order_by Delivery.next_retry_at
      (select (λ d. in_flight d.status && leb d.next_retry_at now) s.deliveries))

abbrev pub marked : ℕ → DeliveryStatus → ℕ → Option ℕ → Detail → ℕ → Delivery → Delivery
marked now status attempt response_code detail next_retry_at d = record d {
  status = status;
  attempt = attempt;
  response_code = response_code;
  detail = detail;
  next_retry_at = next_retry_at;
  updated_at = now;
}

pub mark_delivery : ℕ → ℕ → DeliveryStatus → ℕ → Option ℕ → Detail → ℕ → Store → Store
mark_delivery now delivery_id status attempt response_code detail next_retry_at s = record s {
  deliveries =
      update (λ d. d.id == delivery_id)
        (marked now status attempt response_code detail next_retry_at) s.deliveries;
}

-- the loop of `consecutive_dead`, over the endpoint's settled rows, newest first
leading_dead : List Delivery → ℕ → ℕ
leading_dead [] n = n
leading_dead (d ∷ rows) n = elim d.status [ dead ↦ leading_dead rows (n + 1) | _ ↦ n ]

abbrev pub is_settled : DeliveryStatus → Bool
is_settled delivered = true
is_settled dead = true
is_settled _ = false

-- `ORDER BY id DESC`, of rows in order of their ids
abbrev newest_first : List Delivery → List Delivery → List Delivery
newest_first [] acc = acc
newest_first (d ∷ rows) acc = newest_first rows (d ∷ acc)

pub consecutive_dead : String → Store → ℕ
unfolding leading_dead
consecutive_dead endpoint_id s =
    leading_dead
      (newest_first
        (select (λ d. str_eq d.endpoint_id endpoint_id && is_settled d.status) s.deliveries) [])
      0

abbrev pub is_dead : DeliveryStatus → Bool
is_dead dead = true
is_dead _ = false

-- the optional `AND endpoint_id=?`; an empty id is falsy
abbrev at_endpoint : Option String → Delivery → Bool
at_endpoint none d = true
at_endpoint (some endpoint_id) d = str_eq endpoint_id "" || str_eq d.endpoint_id endpoint_id

abbrev pub replayable : String → Option String → Delivery → Bool
replayable tenant_id endpoint_id d =
    str_eq d.tenant_id tenant_id && is_dead d.status && at_endpoint endpoint_id d

pub replay_dead : ℕ → ℕ → String → Option String → Store → Store × ℕ
replay_dead stamp now tenant_id endpoint_id s =
    let rowcount = count (replayable tenant_id endpoint_id) s.deliveries in
    let rearmed = record s {
      deliveries =
          update (replayable tenant_id endpoint_id)
            (λ d. record d {
              status = pending;
              attempt = 0;
              next_retry_at = now;
              updated_at = stamp;
            })
            s.deliveries;
    } in
    if ltb 0 rowcount
    then (log (dlq_replayed tenant_id rowcount endpoint_id) rearmed, rowcount)
    else (rearmed, rowcount)
