-- ===== src/Webhooks/Dispatch/Budget.antt =====
-- The retry budget of deliveries under the dispatcher and every other caller
-- (voclyp/delivery.py, voclyp/store.py).
use voclyp_dev.Prelude.{
  ℕ, ◌+◌, ◌<◌, ◌≡◌, refl, String, Bool-cases, inl, inr, true, ◌&&◌, Option, List, [], ◌∷◌, ◌++◌,
  arith, ◌==◌, leb, ltb, count, is_some, All, All-order_by, All-take, select,
}
use voclyp_dev.Webhooks.{
  Endpoint, EndpointStatus, Delivery, DeliveryStatus, pending, retrying, delivered, dead, blocked,
  in_flight, Event, unfanned_events, get_endpoint, owned, Store, init, marked, set_endpoint_status,
  add_webhook, rotate_webhook_secret, replay_dead, replayable, due_deliveries, mark_fanned_out,
  endpoints_for,
}
use voclyp_dev.Webhooks.Dispatch.{
  World, max_attempts, attempt, attempt_all, deliver_due, create_for, fan_out_all, fan_out,
  run_once,
}
use voclyp_dev.Webhooks.Dispatch.Ledger.{
  Budget, IsLedger, update-IsLedger, create_delivery-IsLedger,
}
use voclyp_dev.Webhooks.Dispatch.Marks.{Marks, attempt-Marks}

abbrev pub Ledger : Store → Type 0
Ledger s = IsLedger s.deliveries s.last_delivery

Marks-Ledger : (id n : ℕ) (s s' : Store) → Marks id n s s' → Ledger s → Ledger s'
Marks-Ledger id n s s' m h =
    rw (m.rows, m.last)
      (update-IsLedger (λ d. d.id == id)
        (marked m.stamp m.status n m.response_code m.detail m.next_retry_at) (λ d. refl) (λ d. refl)
        s.deliveries s.last_delivery (λ d. refl) (λ d t b. m.budget) h)

abbrev pub Fresh : List Delivery → Type 0
Fresh ds = All (λ d. d.attempt < max_attempts) ds

in_flight-fresh : (s : DeliveryStatus) (n : ℕ) → in_flight s ≡ true → Budget s n → n < max_attempts
in_flight-fresh pending n h b = b
in_flight-fresh retrying n h b = b.1
in_flight-fresh delivered n h b = cc
in_flight-fresh dead n h b = cc
in_flight-fresh blocked n h b = cc

select-Fresh :
    (now : ℕ) (ds : List Delivery)
    → All (λ d. Budget d.status d.attempt) ds
    → Fresh (select (λ d. in_flight d.status && leb d.next_retry_at now) ds)
select-Fresh now [] h = tt
select-Fresh now (d ∷ ds) h = elim (Bool-cases (in_flight d.status && leb d.next_retry_at now)) [
  | inl t ↦ rw t (in_flight-fresh d.status d.attempt (ground arith) h.0, select-Fresh now ds h.1)
  | inr t ↦ rw t (select-Fresh now ds h.1)
]

-- What is due has attempts left.
pub due_deliveries-Fresh :
    (now limit : ℕ) (s : Store) → Ledger s → Fresh (due_deliveries now limit s)
unfolding due_deliveries
due_deliveries-Fresh now limit s h =
    All-take _ limit _
      (All-order_by _ Delivery.next_retry_at _ (select-Fresh now s.deliveries h.budgets))

attempt_all-Ledger :
    (w : World) (stamp now : ℕ) (ds : List Delivery) (s : Store)
    → Fresh ds
    → Ledger s
    → Ledger (attempt_all w stamp now ds s)
unfolding attempt_all
attempt_all-Ledger w stamp now [] s f h = h
attempt_all-Ledger w stamp now (d ∷ ds) s f h =
    let s' = attempt w stamp now d s in
    attempt_all-Ledger w stamp now ds s' f.1
      (Marks-Ledger d.id (d.attempt + 1) s s' (attempt-Marks w stamp now d f.0 s) h)

pub deliver_due-Ledger :
    (w : World) (stamp now limit : ℕ) (s : Store)
    → Ledger s
    → Ledger (deliver_due w stamp now limit s).0
unfolding deliver_due
deliver_due-Ledger w stamp now limit s h =
    attempt_all-Ledger w stamp now (due_deliveries now limit s) s
      (due_deliveries-Fresh now limit s h) h

create_for-Ledger :
    (stamp now : ℕ) (v : Event) (es : List Endpoint) (s : Store)
    → Ledger s
    → Ledger (create_for stamp now v es s)
unfolding create_for
create_for-Ledger stamp now v [] s h = h
create_for-Ledger stamp now v (e ∷ es) s h =
    create_for-Ledger stamp now v es _
      (create_delivery-IsLedger stamp now v.tenant_id e.id v.event_id s h)

fan_out_all-Ledger :
    (stamp now : ℕ) (vs : List Event) (s : Store) (n : ℕ)
    → Ledger s
    → Ledger (fan_out_all stamp now vs s n).0
unfolding fan_out_all mark_fanned_out
fan_out_all-Ledger stamp now [] s n h = h
fan_out_all-Ledger stamp now (v ∷ vs) s n h =
    fan_out_all-Ledger stamp now vs _ _
      (create_for-Ledger stamp now v (endpoints_for v.tenant_id v.event_type s) s h)

pub fan_out-Ledger : (stamp now : ℕ) (s : Store) → Ledger s → Ledger (fan_out stamp now s).0
unfolding fan_out
fan_out-Ledger stamp now s h = fan_out_all-Ledger stamp now (unfanned_events 100 s) s 0 h

-- A run of the dispatcher keeps the ledger valid.
pub run_once-Ledger :
    (w : World) (stamp now : ℕ) (s : Store) → Ledger s → Ledger (run_once w stamp now s).0
unfolding run_once
run_once-Ledger w stamp now s h =
    deliver_due-Ledger w stamp now 100 _ (fan_out-Ledger stamp now s h)

replay_dead-Ledger :
    (stamp now : ℕ) (t : String) (e : Option String) (s : Store)
    → Ledger s
    → Ledger (replay_dead stamp now t e s).0
unfolding replay_dead
replay_dead-Ledger stamp now t e s h =
    let kept =
      update-IsLedger (replayable t e)
        (λ d. record d { status = pending; attempt = 0; next_retry_at = now; updated_at = stamp })
        (λ d. refl) (λ d. refl) s.deliveries s.last_delivery (λ d. refl) (λ d p b. omega arith) h in
    elim (Bool-cases (ltb 0 (count (replayable t e) s.deliveries))) [
      | inl some_dead ↦ rw some_dead kept
      | inr none_dead ↦ rw none_dead kept
    ]

-- One call on the store: by the dispatcher, by the worker that emits an event, or by an operator.
pub data Step : Store → Store → Type 0 where
  registered :
      (now : ℕ) (id secret t url : String) (types : List String) (s : Store)
      → Step s (add_webhook now id secret t url types s)
  rotated :
      (now : ℕ) (secret t id : String) (s : Store)
      → Step s (rotate_webhook_secret now secret t id s).0
  status_set :
      (t id : String) (status : EndpointStatus) (s : Store)
      → Step s (set_endpoint_status t id status s).0
  emitted : (v : Event) (s : Store) → Step s (record s { outbox = s.outbox ++ v ∷ [] })
  fanned : (stamp now : ℕ) (s : Store) → Step s (fan_out stamp now s).0
  delivered_due :
      (w : World) (stamp now limit : ℕ) (s : Store) → Step s (deliver_due w stamp now limit s).0
  replayed :
      (stamp now : ℕ) (t : String) (e : Option String) (s : Store)
      → Step s (replay_dead stamp now t e s).0

pub data Reach (s : Store) : Store → Type 0 where
  here : Reach s s
  next : {a b : Store} → Reach s a → Step a b → Reach s b

Step-Ledger : {a b : Store} → Step a b → Ledger a → Ledger b
unfolding add_webhook rotate_webhook_secret set_endpoint_status
Step-Ledger (registered now id secret t url types s) h = h
Step-Ledger (rotated now secret t id s) h = elim (Bool-cases (is_some (get_endpoint t id s))) [
  | inl known ↦ rw known h
  | inr unknown ↦ rw unknown h
]
Step-Ledger (status_set t id status s) h =
    elim (Bool-cases (ltb 0 (count (owned t id) s.endpoints))) [
      | inl known ↦ rw known h
      | inr unknown ↦ rw unknown h
    ]
Step-Ledger (emitted v s) h = h
Step-Ledger (fanned stamp now s) h = fan_out-Ledger stamp now s h
Step-Ledger (delivered_due w stamp now limit s) h = deliver_due-Ledger w stamp now limit s h
Step-Ledger (replayed stamp now t e s) h = replay_dead-Ledger stamp now t e s h

-- After any calls in any order, whatever the network answered: delivery ids are unique and
-- ascending, no endpoint has two deliveries of one event, a delivery that may still be tried has
-- fewer than five attempts behind it, none has more than five, and a dead one has exactly five.
pub Reach-Ledger : {s : Store} → Reach init s → Ledger s
Reach-Ledger here = record { ids = omega arith; budgets = tt; distinct = tt }
Reach-Ledger (next r st) = Step-Ledger st (Reach-Ledger r)
