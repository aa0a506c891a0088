-- ===== src/Enterprise/Routing/Dispatch.antt =====
-- `RoutingDispatcher` (voclyp/enterprise/routing/dispatcher.py). What a client answers is an
-- argument. The rows of a batch are delivered by a thread pool; each delivery touches its own row
-- alone, and the model takes them in order.
mod Tests
pub mod Retry
pub mod Rows
pub mod Hold
use voclyp_dev.Prelude.{
  ℕ, ◌+◌, ◌*◌, ◌^◌, String, Bool, true, false, not, ◌&&◌, Option, none, some, List, [], ◌∷◌,
  if◌then◌else◌, ltb, leb, length, take, select, str_eq, Text, codes,
}
use voclyp_dev.Enterprise.States.{dispatching}
use voclyp_dev.Enterprise.Conversations.{
  Conversation, Schemas, Outcome, updated, illegal_transition, set_state, update_fields,
  get_conversation,
}
use voclyp_dev.Enterprise.Routing.{
  Channel, push, whatsapp, zoho, Status, held, pending, delivering, delivered, failed, skipped,
  Payload, lead, message, notice, Row, Tables, insert_routing, get_routing_for_conversation,
  get_routing, update_routing, due_routing, move_to_dlq,
}
use voclyp_dev.Enterprise.Routing.Payloads.{Extraction, or_text, build_payloads, idempotency_key}

-- what `client.send` does: it returns a result, or raises
pub data Reply : Type 0 where
  accepted : Option Text → Option Text → Reply
  refused : Option Text → Reply
  raised : Text → Reply

pub record World : Type 0 where
  pub clients : Channel → Option (Payload → Text → Reply)
  pub sha256 : Text → Text
  pub canonical : Payload → Text
  pub digits : ℕ → Text
  pub dlq_id : String → String

abbrev pub ceiling : ℕ
ceiling = 5

-- `min(3600, 2 ** attempts * 30)`
pub backoff : ℕ → ℕ
backoff attempts = if ltb 3600 (2 ^ attempts * 30) then 3600 else 2 ^ attempts * 30

-- `(result.get("detail") or "max retries exceeded")[:480]`
reason_of : Option Text → Text
reason_of none = take 480 (codes "max retries exceeded")
reason_of (some detail) = take 480 (or_text detail (codes "max retries exceeded"))

module _ (w : World) (now : ℕ) where
  -- what follows a refusal or an exception
  unsent : Row → ℕ → Option Text → Tables → Tables
  unfolding reason_of
  unsent row attempts detail t =
      if ltb row.max_attempts attempts
      then move_to_dlq now (w.dlq_id row.id) row.id attempts (reason_of detail) t
      else update_routing now row.id
          (λ r. record r {
            status = failed;
            attempts = attempts;
            next_retry_at = now + backoff attempts;
            detail = detail;
          })
          t

  sent : Row → ℕ → Reply → Tables → Tables
  unfolding unsent
  sent row attempts (accepted response detail) t =
      update_routing now row.id
        (λ r. record r {
          status = delivered;
          attempts = attempts;
          response = response;
          detail = detail;
        })
        t
  sent row attempts (refused detail) t = unsent row attempts detail t
  sent row attempts (raised name) t = unsent row attempts (some name) t

  -- `row.get("idempotency_key") or idempotency_key(…)`
  key_of : Row → Text
  key_of row =
      or_text row.idempotency_key
        (idempotency_key w.sha256 w.canonical row.conversation_id row.channel row.payload)

  with_client : Row → Option (Payload → Text → Reply) → Tables → Tables
  unfolding sent key_of
  with_client row none t =
      update_routing now row.id
        (λ r. record r { status = skipped; detail = some (codes "no client for channel") }) t
  with_client row (some send) t =
      sent row (row.attempts + 1) (send row.payload (key_of row))
        (update_routing now row.id (λ r. record r { status = delivering }) t)

  -- `_deliver_one`
  pub deliver_one : Row → Tables → Tables
  unfolding with_client
  deliver_one row t = with_client row (w.clients row.channel) t

  pub deliver_rows : List Row → Tables → Tables
  deliver_rows [] t = t
  deliver_rows (row ∷ rows) t = deliver_rows rows (deliver_one row t)

  abbrev is_pending : Status → Bool
  is_pending pending = true
  is_pending _ = false

  -- `_deliver_ready`
  pub deliver_ready : String → Tables → Tables
  deliver_ready conversation_id t =
      deliver_rows
        (select (λ r. is_pending r.status) (get_routing_for_conversation conversation_id t)) t

  -- `process_due`
  pub process_due : ℕ → Tables → Tables × ℕ
  process_due limit t = let due = due_routing now limit t in (deliver_rows due t, length due)

  is_held : Channel → Bool → Status
  is_held whatsapp true = held
  is_held _ _ = pending

  new_row : (Channel → String) → Conversation → Channel → Payload → Row
  unfolding is_held
  new_row fresh conv channel payload = record {
    id = fresh channel;
    tenant_id = conv.tenant_id;
    conversation_id = conv.id;
    channel = channel;
    status = is_held channel conv.requires_human_verification;
    attempts = 0;
    max_attempts = ceiling;
    idempotency_key = idempotency_key w.sha256 w.canonical conv.id channel payload;
    payload = payload;
    response = none;
    detail = none;
    next_retry_at = now;
    created_at = now;
    updated_at = now;
  }

  pub insert_all : (Channel → String) → Conversation → List (Channel × Payload) → Tables → Tables
  unfolding new_row
  insert_all fresh conv [] t = t
  insert_all fresh conv ((channel, payload) ∷ payloads) t =
      insert_all fresh conv payloads (insert_routing (new_row fresh conv channel payload) t)

  unfoldable pub routed :
      (Channel → String) → Conversation → Extraction → Outcome → Tables → Option (Schemas × Tables)
  unfolding insert_all
  routed fresh conv e illegal_transition t = none
  routed fresh conv e (updated schemas) t = some (
    schemas,
    deliver_ready conv.id (
        insert_all fresh conv
          (build_payloads w.digits conv.id conv.agent_id e conv.requires_human_verification) t),
  )

  -- `handle(event)` for the event's conversation; `e` is its extraction. `none` is the exception of
  -- an illegal transition.
  unfoldable pub handle :
      (Channel → String) → Extraction → String → Schemas → Tables → Option (Schemas × Tables)
  unfolding routed
  handle fresh e conversation_id schemas t = elim (get_conversation conversation_id schemas) [
    | none ↦ some (schemas, t)
    | some conv ↦ routed fresh conv e (set_state now conversation_id dispatching (λ c. c) schemas) t
  ]

  -- the recipient that `verify` writes into the payload
  address : String → Payload → Payload
  address to (message conversation_id old body held_back) =
      if str_eq to ""
      then message conversation_id old body held_back
      else message conversation_id (codes to) body held_back
  address to payload = payload

  abbrev pub is_on_hold : Status → Bool
  is_on_hold held = true
  is_on_hold _ = false

  release : String → String → Option Row → Tables → Tables × Bool
  unfolding address
  release conversation_id to none t = (t, false)
  release conversation_id to (some row) t =
      if is_on_hold row.status
      then (
        deliver_ready conversation_id (
            update_routing now row.id
              (λ r. record r {
                status = pending;
                next_retry_at = now;
                payload = address to row.payload;
              })
              t),
        true,
      )
      else (t, false)

  -- `verify(conversation_id, verified_by, whatsapp_to)`, with `whatsapp_released`; `none` is the
  -- KeyError of an unknown conversation
  pub verify : String → String → String → Schemas → Tables → Option (Schemas × Tables × Bool)
  unfolding release
  verify conversation_id by to schemas t = elim (get_conversation conversation_id schemas) [
    | none ↦ none
    | some conv ↦
        let marked =
          update_fields now conversation_id
            (λ c. record c {
              requires_human_verification = false;
              verified_by = some by;
              verified_at = some now;
            })
            schemas in
        let (t', released) =
          release conversation_id to (get_routing conversation_id whatsapp t) t in
        some (marked, t', released)
  ]
