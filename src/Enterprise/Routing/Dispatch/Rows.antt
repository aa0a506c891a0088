-- ===== src/Enterprise/Routing/Dispatch/Rows.antt =====
-- What the writes of the routing tables (voclyp/enterprise/store.py) leave of a row.
use voclyp_dev.Prelude.{
  ℕ, String, ◌≡◌, refl, ◌∙◌, ◌≢◌, inl, inr, Bool, Bool-cases, Option-cases, false, ◌||◌, none, some,
  arith, eq_iff, find, Text, is_some,
}
use voclyp_dev.Prelude.Keys.{
  with_key, Keyed, find-update_by, find-delete_by, Keyed-append, find-append_some, find-append_none,
  find-append,
}
use voclyp_dev.Enterprise.Routing.{
  Row, Tables, update_routing, move_to_dlq, at_channel, insert_routing,
}
use voclyp_dev.Enterprise.Routing.Dispatch.Retry.{row_of}

pub row_of-update_other :
    (now : ℕ) (k id : String) (fields : Row → Row) (t : Tables)
    → ((r : Row) → (fields r).id ≡ r.id)
    → k ≢ id
    → row_of id (update_routing now k fields t) ≡ row_of id t
unfolding update_routing
row_of-update_other now k id fields t same n = ground (
  arith,
  eq_iff k id,
  find-update_by Row.id k id (λ r. let r' = fields r in record r' { updated_at = now }) t.outbox
      same,
)

pub row_of-move_other :
    (now : ℕ) (dlq_id k id : String) (n : ℕ) (reason : Text) (t : Tables)
    → k ≢ id
    → row_of id (move_to_dlq now dlq_id k n reason t) ≡ row_of id t
unfolding move_to_dlq
row_of-move_other now dlq_id k id n reason t ne =
    ground (arith, eq_iff k id, find-delete_by Row.id k id t.outbox)

pub insert_routing-Keyed :
    (row : Row) (t : Tables) → Keyed Row.id t.outbox → Keyed Row.id (insert_routing row t).outbox
unfolding insert_routing
insert_routing-Keyed row t k = elim (Option-cases (find (with_key Row.id row.id) t.outbox)) [
  | inr (x, old) ↦ rw old k
  | inl new ↦ elim (Option-cases (find (at_channel row.conversation_id row.channel) t.outbox)) [
    | inr (x, old) ↦ rw (new, old) k
    | inl free ↦ rw (new, free) (Keyed-append Row.id t.outbox row new k)
  ]
]

pub insert_routing-new :
    (row : Row) (t : Tables)
    → row_of row.id t ≡ none
    → find (at_channel row.conversation_id row.channel) t.outbox ≡ none
    → row_of row.id (insert_routing row t) ≡ some row
unfolding insert_routing
insert_routing-new row t new free =
    rw (new, free)
      (find-append_none (with_key Row.id row.id) t.outbox row new ((eq_iff row.id row.id).1 refl))

pub insert_routing-kept :
    (p : Row → Bool) (row x : Row) (t : Tables)
    → find p t.outbox ≡ some x
    → find p (insert_routing row t).outbox ≡ some x
unfolding insert_routing
insert_routing-kept p row x t h =
    elim (Bool-cases (
      is_some (find (with_key Row.id row.id) t.outbox)
      || is_some (find (at_channel row.conversation_id row.channel) t.outbox))) [
        | inl old ↦ rw old h
        | inr new ↦ rw new (find-append_some p t.outbox row x h)
      ]

pub insert_routing-none :
    (p : Row → Bool) (row : Row) (t : Tables)
    → find p t.outbox ≡ none
    → p row ≡ false
    → find p (insert_routing row t).outbox ≡ none
unfolding insert_routing
insert_routing-none p row t h n =
    elim (Bool-cases (
      is_some (find (with_key Row.id row.id) t.outbox)
      || is_some (find (at_channel row.conversation_id row.channel) t.outbox))) [
        | inl old ↦ rw old h
        | inr new ↦ rw new (find-append p t.outbox row ∙ rw (h, n) refl)
      ]
