-- ===== src/Webhooks/Dispatch/Tests.antt =====
-- The dispatcher (voclyp/delivery.py) with one endpoint and one event.
use voclyp_dev.Prelude.{◌≡◌, refl, false, none, some, [], ◌∷◌}
use voclyp_dev.Security.Ssrf.{Address, check_webhook_url}
use voclyp_dev.Webhooks.{
  Delivery, pending, delivered, no_detail, Event, Store, init, add_webhook, unfanned_events,
  endpoints_for, mark_fanned_out, create_delivery, due_deliveries, get_endpoint, get_event,
  mark_delivery,
}
use voclyp_dev.Webhooks.Dispatch.{responded, World, attempt, deliver_due, fan_out, post}
use voclyp_dev.Webhooks.Dispatch.Budget.{
  Ledger, registered, emitted, fanned, delivered_due, Reach, here, next, Reach-Ledger,
}
use voclyp_dev.Webhooks.Dispatch.Outcome.{row_of, Because, attempt_explained}
use voclyp_dev.Webhooks.Dispatch.Settled.{deliver_due-settled}
use voclyp_dev.Webhooks.Dispatch.Fanout.{AllReached, fan_out-AllReached}

abbrev public_address : Address
public_address = record {
  is_private = false;
  is_loopback = false;
  is_link_local = false;
  is_reserved = false;
  is_multicast = false;
  is_unspecified = false;
}

abbrev world : World
world = record {
  urlsplit = λ url. record {
    scheme = "https";
    hostname = some "crm.example";
    port = none;
    username = none;
    password = none;
  };
  getaddrinfo = λ host port. some (public_address ∷ []);
  urlopen = λ e v. responded 200;
  uniform = λ n. 1000;
  allow_insecure_webhooks = false;
}

abbrev event : Event
event = record {
  event_id = "ev1";
  tenant_id = "t1";
  event_type = "insight.created";
  resource = "insight";
  resource_id = "c1";
  resource_status = "ready";
  sequence = 1;
  occurred_at = 5;
  fanned_out = false;
}

abbrev registered_one : Store
registered_one = add_webhook 1 "we1" "s" "t1" "https://crm.example/h" ("*" ∷ []) init

abbrev emitted_one : Store
emitted_one = record registered_one { outbox = event ∷ [] }

abbrev fanned_one : Store
fanned_one = (fan_out 6 6 emitted_one).0

abbrev delivered_one : Store
delivered_one = (deliver_due world 7 7 100 fanned_one).0

reached : Reach init delivered_one
unfolding add_webhook
reached =
    next
      (next
        (next (next here (registered 1 "we1" "s" "t1" "https://crm.example/h" ("*" ∷ []) init))
          (emitted event registered_one))
        (fanned 6 6 emitted_one))
      (delivered_due world 7 7 100 fanned_one)

delivered_one-Ledger : Ledger delivered_one
delivered_one-Ledger = Reach-Ledger reached

Reach-Ledger_example : Ledger delivered_one
Reach-Ledger_example = Reach-Ledger reached

abbrev queued : Delivery
queued = record {
  id = 1;
  tenant_id = "t1";
  endpoint_id = "we1";
  event_id = "ev1";
  attempt = 0;
  status = pending;
  response_code = none;
  detail = no_detail;
  next_retry_at = 6;
  updated_at = 6;
}

has_queued : row_of 1 fanned_one ≡ some queued
unfolding fan_out add_webhook unfanned_events mark_fanned_out endpoints_for create_delivery
has_queued = refl

attempt_explained_example :
    (r : Delivery) × (row_of 1 (attempt world 7 7 queued fanned_one) ≡ some r)
    × (r.attempt ≡ 1)
    × Because world 7 7 queued fanned_one r
attempt_explained_example = attempt_explained world 7 7 queued fanned_one has_queued

abbrev acknowledged : Delivery
acknowledged = record queued {
  attempt = 1;
  status = delivered;
  response_code = some 200;
  next_retry_at = 0;
  updated_at = 7;
}

has_acknowledged : row_of 1 delivered_one ≡ some acknowledged
unfolding fan_out add_webhook deliver_due due_deliveries unfanned_events mark_fanned_out
    endpoints_for create_delivery attempt get_endpoint get_event check_webhook_url post
    mark_delivery
has_acknowledged = refl

deliver_due-settled_example :
    row_of 1 (deliver_due world 9 9 100 delivered_one).0 ≡ some acknowledged
deliver_due-settled_example =
    deliver_due-settled world 9 9 100 1 delivered_one acknowledged delivered_one-Ledger
      has_acknowledged refl

fan_out-AllReached_example :
    AllReached emitted_one (fan_out 6 6 emitted_one).0 (unfanned_events 100 emitted_one)
fan_out-AllReached_example = fan_out-AllReached 6 6 emitted_one
