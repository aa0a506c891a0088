-- ===== src/Webhooks/Dispatch.antt =====
-- voclyp/delivery.py: the dispatcher. What the network, the name service and the random jitter
-- answer is an argument, `World`; delays count milliseconds and the jitter factor counts
-- thousandths. The signature that `_post` sends is modelled in Security and changes no state.
mod Tests
pub mod Ledger
pub mod Marks
pub mod Budget
pub mod Outcome
pub mod Settled
pub mod Fanout
use voclyp_dev.Prelude.{
  ℕ, zero, suc, ◌+◌, ◌*◌, String, Bool, true, false, not, ◌&&◌, ◌||◌, Option, none, some, List, [],
  ◌∷◌, if◌then◌else◌, ltb, leb, length,
}
use text.Mathlib.Text.{starts_with}
use voclyp_dev.Security.Ssrf.{UrlParts, Address, UrlCheck, url_ok, check_webhook_url}
use voclyp_dev.Webhooks.{
  Endpoint, EndpointStatus, active, disabled, is_active, Delivery, DeliveryStatus, pending,
  retrying, delivered, dead, blocked, Detail, no_detail, endpoint_missing, ssrf, raised, Event,
  delivery_dead_lettered, Store, log, unfanned_events, get_event, mark_fanned_out, get_endpoint,
  set_endpoint_status, endpoints_for, create_delivery, due_deliveries, mark_delivery,
  consecutive_dead,
}

-- `RETRY_SCHEDULE_S[min(attempt, MAX_ATTEMPTS) - 1]`; for 0 the index is -1, the last entry
pub retry_schedule_s : ℕ → ℕ
retry_schedule_s zero = 43200
retry_schedule_s (suc zero) = 60
retry_schedule_s (suc (suc zero)) = 300
retry_schedule_s (suc (suc (suc zero))) = 1800
retry_schedule_s (suc (suc (suc (suc zero)))) = 7200
retry_schedule_s (suc (suc (suc (suc (suc _))))) = 43200

abbrev pub max_attempts : ℕ
max_attempts = 5

abbrev pub auto_disable_after : ℕ
auto_disable_after = 3

-- what `urllib` makes of a request: a response with its status, or an exception by its name
pub data Reply : Type 0 where
  responded : ℕ → Reply
  failed : String → Reply

pub record World : Type 0 where
  pub urlsplit : String → UrlParts
  pub getaddrinfo : String → ℕ → Option (List Address)
  pub urlopen : Endpoint → Event → Reply
  pub uniform : ℕ → ℕ
  pub allow_insecure_webhooks : Bool

-- in milliseconds; the factor lies between 800 and 1200 thousandths
pub backoff : World → ℕ → ℕ
backoff w attempt = retry_schedule_s attempt * w.uniform attempt

-- `_post` returns the code, or raises
accept : Reply → Reply
accept (responded status) =
    if leb 200 status && ltb status 300 then responded status else failed "RuntimeError"
accept (failed name) = failed name

pub post : World → Endpoint → Event → Reply
unfolding accept
post w endpoint event =
    if starts_with endpoint.url "log://" then responded 200 else accept (w.urlopen endpoint event)

-- `_maybe_disable`
pub maybe_disable : String → Endpoint → Store → Store
maybe_disable tenant_id endpoint s =
    if leb auto_disable_after (consecutive_dead endpoint.id s)
    then (set_endpoint_status tenant_id endpoint.id disabled s).0
    else s

module _ (w : World) (stamp now : ℕ) (d : Delivery) where
  -- the `try` block of `_attempt` and its handler
  settle : Endpoint → Event → Reply → Store → Store
  settle endpoint event (responded code) s =
      mark_delivery stamp d.id delivered (d.attempt + 1) (some code) no_detail 0 s
  settle endpoint event (failed name) s =
      if leb max_attempts (d.attempt + 1)
      then maybe_disable d.tenant_id endpoint (
          log (delivery_dead_lettered d.tenant_id event.resource_id endpoint.id event.event_id)
            (mark_delivery stamp d.id dead (d.attempt + 1) none (raised name) 0 s))
      else mark_delivery stamp d.id retrying (d.attempt + 1) none (raised name)
          (now + backoff w (d.attempt + 1)) s

  block : Detail → Store → Store
  block detail s = mark_delivery stamp d.id blocked (d.attempt + 1) none detail 0 s

  guarded : Endpoint → Event → UrlCheck → Store → Store
  guarded endpoint event url_ok s = settle endpoint event (post w endpoint event) s
  guarded endpoint event reason s = block (ssrf reason) s

  found : Option Endpoint → Option Event → Store → Store
  found none _ s = block endpoint_missing s
  found (some endpoint) none s = block endpoint_missing s
  found (some endpoint) (some event) s =
      if is_active endpoint.status
      then guarded endpoint event
          (check_webhook_url w.getaddrinfo w.allow_insecure_webhooks (w.urlsplit endpoint.url)) s
      else block endpoint_missing s

  -- `_attempt`
  pub attempt : Store → Store
  unfolding settle block guarded found
  attempt s =
      found (get_endpoint d.tenant_id d.endpoint_id s) (get_event d.tenant_id d.event_id s) s

module _ (w : World) (stamp now : ℕ) where
  attempt_all : List Delivery → Store → Store
  attempt_all [] s = s
  attempt_all (d ∷ ds) s = attempt_all ds (attempt w stamp now d s)

  -- `deliver_due`, with the number of attempts made
  pub deliver_due : ℕ → Store → Store × ℕ
  unfolding attempt_all
  deliver_due limit s = let due = due_deliveries now limit s in (attempt_all due s, length due)

-- the inner loop of `fan_out`
pub create_for : ℕ → ℕ → Event → List Endpoint → Store → Store
create_for stamp now event [] s = s
create_for stamp now event (endpoint ∷ endpoints) s =
    create_for stamp now event endpoints
      (create_delivery stamp now event.tenant_id endpoint.id event.event_id s)

-- the outer loop, with the count of `create_delivery` calls
fan_out_all : ℕ → ℕ → List Event → Store → ℕ → Store × ℕ
fan_out_all stamp now [] s created = (s, created)
fan_out_all stamp now (event ∷ events) s created =
    let endpoints = endpoints_for event.tenant_id event.event_type s in
    fan_out_all stamp now events
      (mark_fanned_out event.event_id (create_for stamp now event endpoints s))
      (created + length endpoints)

pub fan_out : ℕ → ℕ → Store → Store × ℕ
unfolding fan_out_all create_for
fan_out stamp now s = fan_out_all stamp now (unfanned_events 100 s) s 0

-- `run_once`, with the two numbers that it reports
pub run_once : World → ℕ → ℕ → Store → Store × ℕ × ℕ
run_once w stamp now s =
    let (fanned, created) = fan_out stamp now s in
    let (worked, attempted) = deliver_due w stamp now 100 fanned in (worked, created, attempted)
