-- ===== src/Webhooks/Dispatch/Ledger.antt =====
-- The shape of the delivery ledger and the calls that keep it (voclyp/store.py, voclyp/delivery.py).
use voclyp_dev.Prelude.{
  ℕ, ◌≤◌, ◌<◌, ◌≡◌, refl, ◌∙◌, String, Option-cases, Bool, Bool-cases, inl, inr, true, false, none,
  List, [], ◌∷◌, ◌++◌, arith, str_eq_sym, All, All-append, All-update, find, update,
}
use voclyp_dev.Prelude.Ids.{Ascending, Ascending-append, Ascending-update}
use voclyp_dev.Webhooks.{
  Delivery, DeliveryStatus, pending, retrying, delivered, dead, blocked, same_delivery, Store,
  create_delivery,
}
use voclyp_dev.Webhooks.Dispatch.{max_attempts}

-- The attempts that a delivery of each status has behind it.
abbrev pub Budget : DeliveryStatus → ℕ → Type 0
Budget pending n = n < max_attempts
Budget retrying n = (0 < n) × (n < max_attempts)
Budget delivered n = (0 < n) × (n ≤ max_attempts)
Budget dead n = n ≡ max_attempts
Budget blocked n = (0 < n) × (n ≤ max_attempts)

-- No endpoint has two rows for one event.
abbrev pub Distinct : List Delivery → Type 0
Distinct [] = Unit
Distinct (d ∷ ds) = (find (same_delivery d.endpoint_id d.event_id) ds ≡ none) × Distinct ds

pub record IsLedger (ds : List Delivery) (last : ℕ) : Type 0 where
  pub ids : Ascending Delivery.id 0 ds last
  pub budgets : All (λ d. Budget d.status d.attempt) ds
  pub distinct : Distinct ds

find_same-append :
    (e v : String) (ds : List Delivery) (row : Delivery)
    → find (same_delivery e v) ds ≡ none
    → same_delivery e v row ≡ false
    → find (same_delivery e v) (ds ++ row ∷ []) ≡ none
find_same-append e v [] row h n = ground arith
find_same-append e v (d ∷ ds) row h n = ground (arith, find_same-append e v ds row)

same_delivery_sym :
    (a b : Delivery)
    → same_delivery a.endpoint_id a.event_id b ≡ same_delivery b.endpoint_id b.event_id a
same_delivery_sym a b =
    ground (arith, str_eq_sym a.endpoint_id b.endpoint_id, str_eq_sym a.event_id b.event_id)

Distinct-append :
    (ds : List Delivery) (row : Delivery)
    → find (same_delivery row.endpoint_id row.event_id) ds ≡ none
    → Distinct ds
    → Distinct (ds ++ row ∷ [])
Distinct-append [] row h k = (refl, tt)
Distinct-append (d ∷ ds) row h k = (
  find_same-append d.endpoint_id d.event_id ds row k.0 (same_delivery_sym d row ∙ ground arith),
  Distinct-append ds row (ground arith) k.1,
)

module _ (p : Delivery → Bool) (f : Delivery → Delivery)
    (endpoint-f : (d : Delivery) → (f d).endpoint_id ≡ d.endpoint_id)
    (event-f : (d : Delivery) → (f d).event_id ≡ d.event_id) where
  find_same-update :
      (e v : String) (ds : List Delivery)
      → find (same_delivery e v) ds ≡ none
      → find (same_delivery e v) (update p f ds) ≡ none
  find_same-update e v [] h = refl
  find_same-update e v (d ∷ ds) h = ground (arith, find_same-update e v ds, endpoint-f d, event-f d)

  Distinct-update : (ds : List Delivery) → Distinct ds → Distinct (update p f ds)
  Distinct-update [] h = tt
  Distinct-update (d ∷ ds) h = elim (Bool-cases (p d)) [
    | inl t ↦
        rw (t, endpoint-f d, event-f d)
          (find_same-update d.endpoint_id d.event_id ds h.0, Distinct-update ds h.1)
    | inr t ↦ rw t (find_same-update d.endpoint_id d.event_id ds h.0, Distinct-update ds h.1)
  ]

  pub update-IsLedger :
      (ds : List Delivery) (last : ℕ)
      → ((d : Delivery) → (f d).id ≡ d.id)
      → ((d : Delivery)
          → p d ≡ true
          → Budget d.status d.attempt
          → Budget (f d).status (f d).attempt)
      → IsLedger ds last
      → IsLedger (update p f ds) last
  update-IsLedger ds last id-f keeps h = record {
    ids = Ascending-update Delivery.id 0 last p f ds id-f h.ids;
    budgets = All-update _ p f ds keeps h.budgets;
    distinct = Distinct-update ds h.distinct;
  }

-- Creating a delivery keeps the ledger, whether the row is new or already there.
pub create_delivery-IsLedger :
    (now due_at : ℕ) (t e v : String) (s : Store)
    → IsLedger s.deliveries s.last_delivery
    → let s' = create_delivery now due_at t e v s in IsLedger s'.deliveries s'.last_delivery
unfolding create_delivery
create_delivery-IsLedger now due_at t e v s h =
    elim (Option-cases (find (same_delivery e v) s.deliveries)) [
      | inl new ↦ rw new (record {
        ids = Ascending-append Delivery.id 0 s.last_delivery s.deliveries _ h.ids (omega arith);
        budgets = All-append _ s.deliveries _ h.budgets (omega arith);
        distinct = Distinct-append s.deliveries _ new h.distinct;
      })
      | inr (d, old) ↦ rw old h
    ]
