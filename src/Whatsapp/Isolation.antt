-- ===== src/Whatsapp/Isolation.antt =====
-- Which messages a caller of the recommendation routes sees (voclyp/gateway/app.py and
-- voclyp/whatsapp.py).
use voclyp_dev.Prelude.{
  ℕ, suc, ◌≤◌, ◌≡◌, refl, ap, subst, ◌∙◌, String, true, false, Bool-cases, Option-cases, inl, inr,
  none, some, List, [], ◌∷◌, arith, if◌then◌else◌, is_some, find, find-holds, select, any, take,
  length, order_desc, length-order_desc, any-order_desc, str_eq, eq_iff, Text, text_eq, text_eq→eq,
}
use voclyp_dev.Prelude.Keys.{find-append_none, find-append_some}
use voclyp_dev.Gateway.Auth.{Principal, ok}
use voclyp_dev.Whatsapp.{
  Message, Messages, Sending, has_id, for_phone, message_of, queue_message, get_message,
  list_messages_for_customer,
}
use voclyp_dev.Whatsapp.Routes.{get_recommendation_status, list_recommendations}

-- The status route shows a caller no message but those of the caller's tenant, of the id that was
-- asked for.
pub get_recommendation_status-own :
    (id : String) (auth : Principal) (messages : Messages) {m : Message}
    → get_recommendation_status id auth messages ≡ ok m
    → (m.tenant_id ≡ auth.tenant_id) × (m.message_id ≡ id)
unfolding get_recommendation_status get_message
get_recommendation_status-own id auth messages {m} e =
    elim (Option-cases (find (has_id id) messages)) [
      | inl absent ↦ absurd (ground (arith, absent))
      | inr (row, present) ↦ elim (Bool-cases (text_eq row.tenant_id auth.tenant_id)) [
        | inr foreign ↦ absurd (ground (arith, present, foreign))
        | inl own ↦
            let same : row ≡ m = ground (arith, present, own) in
            subst (λ r. (r.tenant_id ≡ auth.tenant_id) × (r.message_id ≡ id)) same
              (
                text_eq→eq row.tenant_id auth.tenant_id own,
                (eq_iff row.message_id id).0 (find-holds (has_id id) messages present),
              )
      ]
    ]

take-all {ℓ} : {A : Type ℓ} (n : ℕ) (xs : List A) → length xs ≤ n → take n xs ≡ xs
take-all ℕ.zero [] h = refl
take-all ℕ.zero (x ∷ xs) h = absurd (omega arith)
take-all (suc n) [] h = refl
take-all (suc n) (x ∷ xs) h = ap (λ l. x ∷ l) (take-all n xs (omega arith))

listed :
    (id : String) (phone : Text) (messages : Messages) {m : Message}
    → find (has_id id) messages ≡ some m
    → for_phone phone m ≡ true
    → any (has_id id) (select (for_phone phone) messages) ≡ true
listed id phone [] h k = cc
listed id phone (x ∷ messages) {m} h k = ground (arith, listed id phone messages {m = m})

-- The list of a customer's messages does not ask for the caller's tenant: a message that is stored
-- for the phone is in the answer to every caller, of whichever tenant, as long as the phone has no
-- more than the twenty messages that are listed.
pub list_recommendations-foreign :
    (id : String) (phone : Text) (auth : Principal) (messages : Messages) {m : Message}
    → text_eq phone [] ≡ false
    → get_message id messages ≡ some m
    → for_phone phone m ≡ true
    → length (select (for_phone phone) messages) ≤ 20
    → (rows : Messages) × (list_recommendations phone auth messages ≡ ok rows)
      × (any (has_id id) rows ≡ true)
unfolding list_recommendations list_messages_for_customer get_message
list_recommendations-foreign id phone auth messages {m} named stored sent few =
    let theirs = select (for_phone phone) messages in
    let rows = order_desc Message.created_at theirs in
    let whole : take 20 rows ≡ rows =
      take-all 20 rows (omega (arith, length-order_desc Message.created_at theirs, few)) in
    (
      take 20 rows,
      rw named refl,
      rw whole (
          any-order_desc Message.created_at (has_id id) theirs
          ∙ listed id phone messages stored sent),
    )

queue_message-keeps :
    (now : ℕ) (fresh id : String) (b : Sending) (messages : Messages) (m : Message)
    → get_message id messages ≡ some m
    → get_message id (queue_message now fresh b messages).1 ≡ some m
unfolding queue_message get_message
queue_message-keeps now fresh id b messages m h =
    let id' = if str_eq b.message_id "" then fresh else b.message_id in
    elim (Bool-cases (is_some (find (has_id id') messages))) [
      | inl old ↦ rw old h
      | inr new ↦ rw new (find-append_some (has_id id) messages (message_of now id' b) m h)
    ]

queue_message-stores :
    (now : ℕ) (fresh : String) (a : Sending) (messages : Messages)
    → get_message (queue_message now fresh a messages).0 messages ≡ none
    → get_message (queue_message now fresh a messages).0 (queue_message now fresh a messages).1
      ≡ some (message_of now (queue_message now fresh a messages).0 a)
unfolding queue_message get_message
queue_message-stores now fresh a messages new =
    let id = if str_eq a.message_id "" then fresh else a.message_id in
    rw new (find-append_none (has_id id) messages (message_of now id a) new ((eq_iff id id).1 refl))

-- The first message that is queued under an id is the one that is read under it, whatever is
-- queued later, under that id or another.
pub queue_message-first :
    (now later : ℕ) (fresh fresh' : String) (a b : Sending) (messages : Messages)
    → get_message (queue_message now fresh a messages).0 messages ≡ none
    → get_message
        (queue_message now fresh a messages).0
        (queue_message later fresh' b (queue_message now fresh a messages).1).1
      ≡ some (message_of now (queue_message now fresh a messages).0 a)
queue_message-first now later fresh fresh' a b messages new =
    queue_message-keeps later fresh' (queue_message now fresh a messages).0 b
      (queue_message now fresh a messages).1
      (message_of now (queue_message now fresh a messages).0 a)
      (queue_message-stores now fresh a messages new)
