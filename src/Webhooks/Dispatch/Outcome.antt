-- ===== src/Webhooks/Dispatch/Outcome.antt =====
-- What one attempt makes of its delivery (voclyp/delivery.py, `_attempt` and `backoff_s`).
use voclyp_dev.Prelude.{
  ℕ, zero, suc, ◌+◌, ◌≤◌, ◌<◌, ◌≡◌, refl, ◌∙◌, ap, Bool-cases, inl, inr, true, false, String, subst,
  ◌≢◌, Option, none, some, arith, ◌==◌, leb, find,
}
use voclyp_dev.Prelude.Ids.{find-update_self}
use voclyp_dev.Security.Ssrf.{UrlCheck, url_ok, check_webhook_url}
use voclyp_dev.Webhooks.{
  Endpoint, is_active, Delivery, DeliveryStatus, retrying, delivered, dead, blocked, Detail, Event,
  endpoint_missing, ssrf, Store, marked, mark_delivery, get_endpoint, get_event,
}
use voclyp_dev.Webhooks.Dispatch.{
  World, Reply, responded, failed, max_attempts, retry_schedule_s, backoff, post, settle, block,
  guarded, found, attempt,
}
use voclyp_dev.Webhooks.Dispatch.Marks.{maybe_disable-deliveries}

-- The row of a delivery.
abbrev pub row_of : ℕ → Store → Option Delivery
row_of id s = find (λ d. d.id == id) s.deliveries

retry_schedule-bounds :
    (n : ℕ) → 0 < n → n < max_attempts → (60 ≤ retry_schedule_s n) × (retry_schedule_s n ≤ 7200)
unfolding retry_schedule_s
retry_schedule-bounds zero h k = absurd (omega arith)
retry_schedule-bounds (suc zero) h k = omega arith
retry_schedule-bounds (suc (suc zero)) h k = omega arith
retry_schedule-bounds (suc (suc (suc zero))) h k = omega arith
retry_schedule-bounds (suc (suc (suc (suc zero)))) h k = omega arith
retry_schedule-bounds (suc (suc (suc (suc (suc n))))) h k = absurd (omega arith)

module _ (w : World) (stamp now : ℕ) (d : Delivery) where
  -- The request is made: the endpoint and the event are there, the endpoint is active, and its URL
  -- passes the SSRF check at that moment.
  pub record Posted (s : Store) (e : Endpoint) (v : Event) : Type 0 where
    pub endpoint : get_endpoint d.tenant_id d.endpoint_id s ≡ some e
    pub event : get_event d.tenant_id d.event_id s ≡ some v
    pub active : is_active e.status ≡ true
    pub safe : check_webhook_url w.getaddrinfo w.allow_insecure_webhooks (w.urlsplit e.url) ≡ url_ok

  -- Why no request is made, with what the row then says.
  pub data Barred (s : Store) : Detail → Type 0 where
    no_endpoint : get_endpoint d.tenant_id d.endpoint_id s ≡ none → Barred s endpoint_missing
    no_event : get_event d.tenant_id d.event_id s ≡ none → Barred s endpoint_missing
    inactive :
        (e : Endpoint)
        → get_endpoint d.tenant_id d.endpoint_id s ≡ some e
        → is_active e.status ≡ false
        → Barred s endpoint_missing
    unsafe :
        (e : Endpoint) (c : UrlCheck)
        → get_endpoint d.tenant_id d.endpoint_id s ≡ some e
        → check_webhook_url w.getaddrinfo w.allow_insecure_webhooks (w.urlsplit e.url) ≡ c
        → c ≢ url_ok
        → Barred s (ssrf c)

  -- Why a row reads as it does after an attempt of it.
  pub data Because (s : Store) (r : Delivery) : Type 0 where
    was_blocked : Barred s r.detail → r.status ≡ blocked → Because s r
    was_answered :
        (e : Endpoint) (v : Event) (code : ℕ)
        → Posted s e v
        → post w e v ≡ responded code
        → r.status ≡ delivered
        → r.response_code ≡ some code
        → Because s r
    has_failed :
        (e : Endpoint) (v : Event) (name : String)
        → Posted s e v
        → post w e v ≡ failed name
        → r.status ≡ retrying
        → r.detail ≡ Detail.raised name
        → d.attempt + 1 < max_attempts
        → r.next_retry_at ≡ now + backoff w (d.attempt + 1)
        → Because s r
    was_exhausted :
        (e : Endpoint) (v : Event) (name : String)
        → Posted s e v
        → post w e v ≡ failed name
        → r.status ≡ dead
        → r.detail ≡ Detail.raised name
        → max_attempts ≤ d.attempt + 1
        → Because s r

  module _ (s : Store) (there : row_of d.id s ≡ some d) where
    row_of-mark :
        (status : DeliveryStatus) (n : ℕ) (code : Option ℕ) (detail : Detail) (at : ℕ)
        → row_of d.id (mark_delivery stamp d.id status n code detail at s)
          ≡ some (marked stamp status n code detail at d)
    unfolding mark_delivery
    row_of-mark status n code detail at = cc (
      there,
      find-update_self Delivery.id d.id (marked stamp status n code detail at) s.deliveries
          (λ x. refl),
    )

    -- The row after the attempt, which counts it, and why it reads so.
    Explained : Store → Type 0
    Explained s' =
        (r : Delivery) × (row_of d.id s' ≡ some r) × (r.attempt ≡ d.attempt + 1) × Because s r

    block-Explained : (detail : Detail) → Barred s detail → Explained (block w stamp now d detail s)
    unfolding block Explained
    block-Explained detail why =
        (_, row_of-mark blocked (d.attempt + 1) none detail 0, refl, was_blocked why refl)

    settle-Explained :
        (e : Endpoint) (v : Event) (reply : Reply)
        → Posted s e v
        → post w e v ≡ reply
        → Explained (settle w stamp now d e v reply s)
    unfolding settle Explained
    settle-Explained e v (responded code) made p = (
      _,
      row_of-mark delivered (d.attempt + 1) (some code) _ 0,
      refl,
      was_answered e v code made p refl refl,
    )
    settle-Explained e v (failed name) made p =
        elim (Bool-cases (leb max_attempts (d.attempt + 1))) [
          | inl t ↦ rw t (
            marked stamp dead (d.attempt + 1) none (Detail.raised name) 0 d,
            ap (find (λ x. x.id == d.id)) (maybe_disable-deliveries _ _ _).0
                ∙ row_of-mark dead (d.attempt + 1) none (Detail.raised name) 0,
            refl,
            was_exhausted e v name made p refl refl (ground arith),
          )
          | inr t ↦ rw t (
            _,
            row_of-mark retrying (d.attempt + 1) none (Detail.raised name)
                (now + backoff w (d.attempt + 1)),
            refl,
            has_failed e v name made p refl refl (ground arith) refl,
          )
        ]

    guarded-Explained :
        (e : Endpoint) (v : Event) (c : UrlCheck)
        → get_endpoint d.tenant_id d.endpoint_id s ≡ some e
        → get_event d.tenant_id d.event_id s ≡ some v
        → is_active e.status ≡ true
        → check_webhook_url w.getaddrinfo w.allow_insecure_webhooks (w.urlsplit e.url) ≡ c
        → Explained (guarded w stamp now d e v c s)
    unfolding guarded
    guarded-Explained e v url_ok he hv a h =
        settle-Explained e v (post w e v)
          (record { endpoint = he; event = hv; active = a; safe = h }) refl
    guarded-Explained e v _ he hv a h = block-Explained _ (unsafe e _ he h (λ q. cc q))

    found-Explained :
        (e : Option Endpoint) (v : Option Event)
        → get_endpoint d.tenant_id d.endpoint_id s ≡ e
        → get_event d.tenant_id d.event_id s ≡ v
        → Explained (found w stamp now d e v s)
    unfolding found
    found-Explained none v he hv = block-Explained _ (no_endpoint he)
    found-Explained (some e) none he hv = block-Explained _ (no_event hv)
    found-Explained (some e) (some v) he hv = elim (Bool-cases (is_active e.status)) [
      | inl t ↦ rw t (guarded-Explained e v _ he hv t refl)
      | inr t ↦ rw t (block-Explained _ (inactive e he t))
    ]

    -- When its row is in the ledger, an attempt counts one attempt more and settles the row in one of
    -- four ways. It is blocked, since the endpoint or the event is missing or the endpoint is not
    -- active, which the row calls a missing endpoint, or since the URL fails the SSRF check, with what
    -- the check found. Or the request was made, to an active endpoint whose URL passed the check at
    -- that moment: if it was accepted the row is delivered, with the response code; if it failed the
    -- row names the exception and is to be retried after the backoff, where attempts are left, or is
    -- dead, where all are used.
    pub attempt_explained :
        (r : Delivery) × (row_of d.id (attempt w stamp now d s) ≡ some r)
        × (r.attempt ≡ d.attempt + 1)
        × Because s r
    unfolding attempt Explained
    attempt_explained = found-Explained _ _ refl refl

backoff-bounds :
    (w : World) (n : ℕ)
    → 0 < n
    → n < max_attempts
    → 800 ≤ w.uniform n
    → w.uniform n ≤ 1200
    → (48000 ≤ backoff w n) × (backoff w n ≤ 8640000)
unfolding backoff
backoff-bounds w n h k low high =
    let (at_least, at_most) = retry_schedule-bounds n h k in (grind arith, grind arith)

Because-window :
    (w : World) (stamp now : ℕ) (d : Delivery) (s : Store) (r : Delivery)
    → ((n : ℕ) → (800 ≤ w.uniform n) × (w.uniform n ≤ 1200))
    → r.status ≡ retrying
    → Because w stamp now d s r
    → (now + 48000 ≤ r.next_retry_at) × (r.next_retry_at ≤ now + 8640000)
Because-window w stamp now d s r jitter again (was_blocked why b) =
    absurd (ground (arith, again, b))
Because-window w stamp now d s r jitter again (was_answered e v code made p b c) =
    absurd (ground (arith, again, b))
Because-window w stamp now d s r jitter again (was_exhausted e v name made p b c full) =
    absurd (ground (arith, again, b))
Because-window w stamp now d s r jitter again (has_failed e v name made p b c room at) =
    let span =
      backoff-bounds w (d.attempt + 1) (omega arith) room (jitter (d.attempt + 1)).0
        (jitter (d.attempt + 1)).1 in
    rw at (omega arith, omega arith)

-- With a jitter of at most a fifth, a row that an attempt leaves to be retried is due between 48
-- seconds and 2.4 hours after the attempt: the last entry of the schedule, 12 hours, is not reached.
pub attempt-retry_window :
    (w : World) (stamp now : ℕ) (d : Delivery) (s : Store) (r : Delivery)
    → ((n : ℕ) → (800 ≤ w.uniform n) × (w.uniform n ≤ 1200))
    → row_of d.id s ≡ some d
    → row_of d.id (attempt w stamp now d s) ≡ some r
    → r.status ≡ retrying
    → (now + 48000 ≤ r.next_retry_at) × (r.next_retry_at ≤ now + 8640000)
attempt-retry_window w stamp now d s r jitter there after again =
    let (r', own, _, why) = attempt_explained w stamp now d s there in
    let same : r' ≡ r = cc (own, after) in
    Because-window w stamp now d s r jitter again (subst (Because w stamp now d s) same why)
