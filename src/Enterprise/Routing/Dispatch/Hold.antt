-- ===== src/Enterprise/Routing/Dispatch/Hold.antt =====
-- A message that waits for a person's verification is not sent
-- (voclyp/enterprise/routing/dispatcher.py, `handle` and `process_due`).
use voclyp_dev.Prelude.{
  ℕ, ◌+◌, String, ◌≡◌, refl, ap, ◌∙◌, ◌≢◌, inl, inr, Bool-cases, true, ◌&&◌, Option, none, some,
  List, [], ◌∷◌, arith, ltb, leb, str_eq, eq_iff, find, Text, All, All-take, All-order_by,
  All-select,
}
use voclyp_dev.Prelude.Keys.{with_key, Keyed, select-others}
use voclyp_dev.Enterprise.Conversations.{
  Conversation, Schemas, Outcome, updated, illegal_transition, set_state, get_conversation,
}
use voclyp_dev.Enterprise.Routing.Payloads.{Extraction, build_payloads, whatsapp_body}
use voclyp_dev.Enterprise.States.{dispatching}
use voclyp_dev.Enterprise.Routing.{
  message, Channel, push, whatsapp, zoho, held, Row, Tables, Payload, retried, at_channel,
  insert_routing, due_routing, get_routing_for_conversation, rank,
}
use voclyp_dev.Enterprise.Routing.Dispatch.{
  World, Reply, accepted, refused, raised, unsent, sent, with_client, deliver_one, deliver_rows,
  process_due, deliver_ready, is_pending, new_row, insert_all, is_held, routed, handle,
}
use voclyp_dev.Enterprise.Routing.Dispatch.Retry.{row_of}
use voclyp_dev.Enterprise.Routing.Dispatch.Rows.{
  row_of-update_other, row_of-move_other, insert_routing-Keyed, insert_routing-new,
  insert_routing-kept, insert_routing-none,
}

module _ (w : World) (now : ℕ) (id : String) where
  row_of-unsent :
      (r : Row) (n : ℕ) (detail : Option Text) (t : Tables)
      → r.id ≢ id
      → row_of id (unsent w now r n detail t) ≡ row_of id t
  unfolding unsent
  row_of-unsent r n detail t ne = elim (Bool-cases (ltb r.max_attempts n)) [
    | inl over ↦ rw over (row_of-move_other now _ r.id id n _ t ne)
    | inr more ↦ rw more (row_of-update_other now r.id id _ t (λ x. refl) ne)
  ]

  row_of-sent :
      (r : Row) (n : ℕ) (reply : Reply) (t : Tables)
      → r.id ≢ id
      → row_of id (sent w now r n reply t) ≡ row_of id t
  unfolding sent
  row_of-sent r n (accepted response detail) t ne =
      row_of-update_other now r.id id _ t (λ x. refl) ne
  row_of-sent r n (refused detail) t ne = row_of-unsent r n detail t ne
  row_of-sent r n (raised name) t ne = row_of-unsent r n (some name) t ne

  row_of-with_client :
      (r : Row) (o : Option (Payload → Text → Reply)) (t : Tables)
      → r.id ≢ id
      → row_of id (with_client w now r o t) ≡ row_of id t
  unfolding with_client
  row_of-with_client r none t ne = row_of-update_other now r.id id _ t (λ x. refl) ne
  row_of-with_client r (some send) t ne =
      row_of-sent r (r.attempts + 1) (send r.payload _) _ ne
      ∙ row_of-update_other now r.id id _ t (λ x. refl) ne

  -- Delivering other rows leaves the row of `id` as it is.
  row_of-deliver_rows :
      (rows : List Row) (t : Tables)
      → All (λ r. r.id ≢ id) rows
      → row_of id (deliver_rows w now rows t) ≡ row_of id t
  unfolding deliver_rows deliver_one
  row_of-deliver_rows [] t h = refl
  row_of-deliver_rows (r ∷ rows) t h =
      row_of-deliver_rows rows (deliver_one w now r t) h.1
      ∙ row_of-with_client r (w.clients r.channel) t h.0

  -- In an outbox whose rows have their ids to themselves, a row that is held is not among those that
  -- a round of retries takes, and stays as it is: no client is called with it.
  pub process_due-held :
      (limit : ℕ) (t : Tables) (x : Row)
      → Keyed Row.id t.outbox
      → row_of id t ≡ some x
      → x.status ≡ held
      → row_of id (process_due w now limit t).0 ≡ some x
  unfolding process_due due_routing
  process_due-held limit t x keyed there on_hold =
      row_of-deliver_rows _ t (
        All-take _ limit _ (
          All-order_by _ Row.next_retry_at _ (
            select-others Row.id id (λ r. retried r.status && leb r.next_retry_at now) t.outbox
              t.outbox x keyed there (rw on_hold refl))))
      ∙ there

module _ (w : World) (now : ℕ) where
  -- What is ready at once does not include a row that is held.
  deliver_ready-held :
      (conversation_id id : String) (t : Tables) (x : Row)
      → Keyed Row.id t.outbox
      → row_of id t ≡ some x
      → x.status ≡ held
      → row_of id (deliver_ready w now conversation_id t) ≡ some x
  unfolding deliver_ready get_routing_for_conversation
  deliver_ready-held conversation_id id t x keyed there on_hold =
      row_of-deliver_rows w now id _ t (
        select-others Row.id id (λ r. is_pending w now r.status) _ t.outbox x
          (All-order_by _ (λ r. rank r.channel) _
            (All-select _ (λ r. str_eq r.conversation_id conversation_id) t.outbox keyed))
          there (rw on_hold refl))
      ∙ there

  module _ (fresh : Channel → String) (conv : Conversation)
      (waits : conv.requires_human_verification ≡ true)
      (distinct : fresh zoho ≢ fresh whatsapp) where
    message_row : (payload : Payload) → Row
    message_row payload = new_row w now fresh conv whatsapp payload

    inserted :
        (lead_of message_of notice_of : Payload) (t : Tables)
        → row_of (fresh whatsapp) t ≡ none
        → find (at_channel conv.id whatsapp) t.outbox ≡ none
        → row_of (fresh whatsapp) (
            insert_all w now fresh conv
              ((zoho, lead_of) ∷ (whatsapp, message_of) ∷ (push, notice_of) ∷ [])
              t)
          ≡ some (message_row message_of)
    unfolding insert_all message_row new_row
    inserted lead_of message_of notice_of t new free =
        let first = insert_routing (new_row w now fresh conv zoho lead_of) t in
        insert_routing-kept (with_key Row.id (fresh whatsapp))
          (new_row w now fresh conv push notice_of) (message_row message_of)
          (insert_routing (message_row message_of) first)
          (insert_routing-new (message_row message_of) first
            (insert_routing-none (with_key Row.id (fresh whatsapp)) _ t new
              (ground (arith, eq_iff (fresh zoho) (fresh whatsapp))))
            (insert_routing-none (at_channel conv.id whatsapp) _ t free (ground arith)))

    insert_all-Keyed :
        (payloads : List (Channel × Payload)) (t : Tables)
        → Keyed Row.id t.outbox
        → Keyed Row.id (insert_all w now fresh conv payloads t).outbox
    unfolding insert_all
    insert_all-Keyed [] t k = k
    insert_all-Keyed ((channel, payload) ∷ payloads) t k =
        insert_all-Keyed payloads _ (insert_routing-Keyed _ t k)

    routed-held :
        (e : Extraction) (o : Outcome) (t : Tables) (s' : Schemas) (t' : Tables)
        → Keyed Row.id t.outbox
        → row_of (fresh whatsapp) t ≡ none
        → find (at_channel conv.id whatsapp) t.outbox ≡ none
        → routed w now fresh conv e o t ≡ some (s', t')
        → (row : Row) × (row_of (fresh whatsapp) t' ≡ some row)
          × (row.channel ≡ whatsapp)
          × (row.status ≡ held)
          × (row.attempts ≡ 0)
    unfolding routed build_payloads message_row new_row is_held
    routed-held e illegal_transition t s' t' keyed new free h = cc
    routed-held e (updated schemas) t s' t' keyed new free h =
        let payloads =
          build_payloads w.digits conv.id conv.agent_id e conv.requires_human_verification in
        let all = insert_all w now fresh conv payloads t in
        let same : t' ≡ deliver_ready w now conv.id all = cc in
        let row =
          message_row (message conv.id [] (whatsapp_body e) conv.requires_human_verification) in
        let on_hold : row.status ≡ held = rw waits refl in
        (
          row,
          ap (row_of (fresh whatsapp)) same
              ∙ deliver_ready-held conv.id (fresh whatsapp) all row
                  (insert_all-Keyed payloads t keyed) (inserted _ _ _ t new free) on_hold,
          refl,
          on_hold,
          refl,
        )

    -- When the conversation waits for verification, the routing of its insight leaves the WhatsApp
    -- message in the outbox, held and not attempted, where ids are unique, the new ids are new, and
    -- the conversation has no WhatsApp row yet.
    pub handle-held :
        (e : Extraction) (id : String) (s s' : Schemas) (t t' : Tables)
        → get_conversation id s ≡ some conv
        → Keyed Row.id t.outbox
        → row_of (fresh whatsapp) t ≡ none
        → find (at_channel conv.id whatsapp) t.outbox ≡ none
        → handle w now fresh e id s t ≡ some (s', t')
        → (row : Row) × (row_of (fresh whatsapp) t' ≡ some row)
          × (row.channel ≡ whatsapp)
          × (row.status ≡ held)
          × (row.attempts ≡ 0)
    unfolding handle
    handle-held e id s s' t t' found keyed new free h =
        routed-held e (set_state now id dispatching (λ c. c) s) t s' t' keyed new free
          (rw (handle, found) at h)
