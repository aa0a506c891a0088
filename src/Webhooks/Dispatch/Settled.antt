-- ===== src/Webhooks/Dispatch/Settled.antt =====
-- A delivery that is settled stays as it is (voclyp/delivery.py, `deliver_due`).
use voclyp_dev.Prelude.{
  ℕ, ◌+◌, ◌≡◌, ◌≢◌, refl, sym, ◌∙◌, ap, Bool-cases, inl, inr, true, false, ◌&&◌, some, List, [],
  ◌∷◌, arith, ◌==◌, leb, All, All-order_by, All-take, find, select,
}
use voclyp_dev.Prelude.Ids.{find-update_ne, find_own-All}
use voclyp_dev.Webhooks.{Delivery, in_flight, Store, due_deliveries}
use voclyp_dev.Webhooks.Dispatch.{World, attempt, attempt_all, deliver_due}
use voclyp_dev.Webhooks.Dispatch.Marks.{Marks, attempt-Marks}
use voclyp_dev.Webhooks.Dispatch.Budget.{Ledger, Fresh, due_deliveries-Fresh}
use voclyp_dev.Webhooks.Dispatch.Outcome.{row_of}

module _ (k : ℕ) where
  Others : List Delivery → Type 0
  Others ds = All (λ d. d.id ≢ k) ds

  Marks-Others : (id n : ℕ) (s s' : Store) → Marks id n s s' → id ≢ k → row_of k s' ≡ row_of k s
  Marks-Others id n s s' m ne =
      ap (find (λ d. d.id == k)) m.rows
      ∙ find-update_ne Delivery.id k id _ s.deliveries (λ e. ne (sym e)) (λ x. refl)

  attempt_all-Others :
      (w : World) (stamp now : ℕ) (ds : List Delivery) (s : Store)
      → Fresh ds
      → Others ds
      → row_of k (attempt_all w stamp now ds s) ≡ row_of k s
  unfolding attempt_all Others
  attempt_all-Others w stamp now [] s f o = refl
  attempt_all-Others w stamp now (d ∷ ds) s f o =
      attempt_all-Others w stamp now ds (attempt w stamp now d s) f.1 o.1
      ∙ Marks-Others d.id (d.attempt + 1) s _ (attempt-Marks w stamp now d f.0 s) o.0

  module _ (s : Store) (x : Delivery) (there : row_of k s ≡ some x)
      (settled : in_flight x.status ≡ false) where
    not_settled : (d : Delivery) → row_of d.id s ≡ some d → in_flight d.status ≡ true → d.id ≢ k
    not_settled d own flying e =
        let same : some d ≡ some x = sym own ∙ ap (λ i. row_of i s) e ∙ there in
        let equal : d ≡ x = cc in cc (ap (λ (y : Delivery). in_flight y.status) equal)

    select-Others :
        (now : ℕ) (ds : List Delivery)
        → All (λ d. row_of d.id s ≡ some d) ds
        → Others (select (λ d. in_flight d.status && leb d.next_retry_at now) ds)
    unfolding Others
    select-Others now [] h = tt
    select-Others now (d ∷ ds) h =
        elim (Bool-cases (in_flight d.status && leb d.next_retry_at now)) [
          | inl t ↦ rw t (not_settled d h.0 (ground arith), select-Others now ds h.1)
          | inr t ↦ rw t (select-Others now ds h.1)
        ]

    due-Others : (now limit : ℕ) → Ledger s → Others (due_deliveries now limit s)
    unfolding due_deliveries Others
    due-Others now limit h = All-take _ limit _ (
        All-order_by _ Delivery.next_retry_at _ (
          select-Others now s.deliveries
            (find_own-All Delivery.id 0 s.last_delivery s.deliveries h.ids)))

-- In a ledger that is valid, a row that is delivered, dead or blocked is not touched by any round of
-- deliveries.
pub deliver_due-settled :
    (w : World) (stamp now limit k : ℕ) (s : Store) (x : Delivery)
    → Ledger s
    → row_of k s ≡ some x
    → in_flight x.status ≡ false
    → row_of k (deliver_due w stamp now limit s).0 ≡ some x
unfolding deliver_due
deliver_due-settled w stamp now limit k s x h there settled =
    attempt_all-Others k w stamp now (due_deliveries now limit s) s
      (due_deliveries-Fresh now limit s h) (due-Others k s x there settled now limit h)
    ∙ there
