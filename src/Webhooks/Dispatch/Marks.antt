-- ===== src/Webhooks/Dispatch/Marks.antt =====
-- What one attempt changes in the ledger (voclyp/delivery.py, `_attempt`).
use voclyp_dev.Prelude.{
  ℕ, ◌+◌, ◌<◌, ◌≡◌, refl, String, Bool-cases, inl, inr, Option, none, some, arith, ◌==◌, leb,
  update,
}
use voclyp_dev.Security.Ssrf.{UrlCheck, url_ok}
use voclyp_dev.Webhooks.{
  Endpoint, is_active, Delivery, DeliveryStatus, retrying, delivered, dead, blocked, Detail, Event,
  Store, marked, mark_delivery, set_endpoint_status,
}
use voclyp_dev.Webhooks.Dispatch.{
  World, Reply, responded, failed, max_attempts, maybe_disable, settle, block, guarded, found,
  attempt,
}
use voclyp_dev.Webhooks.Dispatch.Ledger.{Budget}

-- The deliveries of `s'` are those of `s`, but for the row of the id `id`, which now has some status
-- and `n` attempts within that status's budget. No id was given out.
pub record Marks (id n : ℕ) (s s' : Store) : Type 0 where
  pub stamp : ℕ
  pub status : DeliveryStatus
  pub response_code : Option ℕ
  pub detail : Detail
  pub next_retry_at : ℕ
  pub budget : Budget status n
  pub rows :
      s'.deliveries
      ≡ update
          (λ d. d.id == id)
          (marked stamp status n response_code detail next_retry_at)
          s.deliveries
  pub last : s'.last_delivery ≡ s.last_delivery

pub maybe_disable-deliveries :
    (t : String) (e : Endpoint) (s : Store)
    → ((maybe_disable t e s).deliveries ≡ s.deliveries)
      × ((maybe_disable t e s).last_delivery ≡ s.last_delivery)
unfolding maybe_disable set_endpoint_status
maybe_disable-deliveries t e s = ground arith

module _ (w : World) (stamp now : ℕ) (d : Delivery) (fresh : d.attempt < max_attempts) where
  block-Marks :
      (detail : Detail) (s : Store) → Marks d.id (d.attempt + 1) s (block w stamp now d detail s)
  unfolding block mark_delivery
  block-Marks detail s = record {
    stamp = stamp;
    status = blocked;
    response_code = none;
    detail = detail;
    next_retry_at = 0;
    budget = omega arith;
    rows = refl;
    last = refl;
  }

  settle-Marks :
      (e : Endpoint) (v : Event) (r : Reply) (s : Store)
      → Marks d.id (d.attempt + 1) s (settle w stamp now d e v r s)
  unfolding settle mark_delivery
  settle-Marks e v (responded code) s = record {
    stamp = stamp;
    status = delivered;
    response_code = some code;
    detail = _;
    next_retry_at = 0;
    budget = omega arith;
    rows = refl;
    last = refl;
  }
  settle-Marks e v (failed name) s = elim (Bool-cases (leb max_attempts (d.attempt + 1))) [
    | inl t ↦ rw t (record {
      stamp = stamp;
      status = dead;
      response_code = none;
      detail = _;
      next_retry_at = 0;
      budget = ground arith;
      rows = (maybe_disable-deliveries _ _ _).0;
      last = (maybe_disable-deliveries _ _ _).1;
    })
    | inr t ↦ rw t (record {
      stamp = stamp;
      status = retrying;
      response_code = none;
      detail = _;
      next_retry_at = _;
      budget = ground arith;
      rows = refl;
      last = refl;
    })
  ]

  guarded-Marks :
      (e : Endpoint) (v : Event) (c : UrlCheck) (s : Store)
      → Marks d.id (d.attempt + 1) s (guarded w stamp now d e v c s)
  unfolding guarded
  guarded-Marks e v url_ok s = settle-Marks e v _ s
  guarded-Marks e v _ s = block-Marks _ s

  found-Marks :
      (e : Option Endpoint) (v : Option Event) (s : Store)
      → Marks d.id (d.attempt + 1) s (found w stamp now d e v s)
  unfolding found
  found-Marks none v s = block-Marks _ s
  found-Marks (some e) none s = block-Marks _ s
  found-Marks (some e) (some v) s = elim (Bool-cases (is_active e.status)) [
    | inl t ↦ rw t (guarded-Marks e v _ s)
    | inr t ↦ rw t (block-Marks _ s)
  ]

  -- An attempt marks its own row and no other, within the budget.
  pub attempt-Marks : (s : Store) → Marks d.id (d.attempt + 1) s (attempt w stamp now d s)
  unfolding attempt
  attempt-Marks s = found-Marks _ _ s
