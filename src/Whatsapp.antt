-- ===== src/Whatsapp.antt =====
-- `WhatsAppQueue` (voclyp/whatsapp.py): the table of messages, in order of their row ids. The list
-- of products is kept as the JSON text that the table holds. Clock times are numbers in the order
-- of their ISO texts; writes run under the queue's lock.
mod Tests
pub mod Routes
pub mod Isolation
use voclyp_dev.Prelude.{
  ℕ, String, Bool, true, false, not, Option, none, some, List, [], ◌∷◌, ◌++◌, if◌then◌else◌,
  is_some, find, select, update, any, order_by, order_desc, take, str_eq, Text, text_eq,
}
use voclyp_dev.Prelude.Keys.{with_key}

pub data Status : Type 0 where
  pending queued delivered failed : Status

-- a row of `whatsapp_messages`
pub record Message : Type 0 where
  pub message_id : String
  pub tenant_id : Text
  pub conversation_id : String
  pub customer_phone : Text
  pub rep_name : Option Text
  pub products : Text
  pub message_body : Text
  pub status : Status
  pub attempt_count : ℕ
  pub error_detail : Option Text
  pub created_at : ℕ
  pub sent_at : Option ℕ
  pub delivered_at : Option ℕ
  pub failed_at : Option ℕ

abbrev pub Messages : Type 0
Messages = List Message

-- the arguments of `queue_message`; an empty id is none
pub record Sending : Type 0 where
  pub tenant_id : Text
  pub conversation_id : String
  pub customer_phone : Text
  pub products : Text
  pub message_body : Text
  pub message_id : String
  pub rep_name : Option Text

abbrev pub has_id : String → Message → Bool
has_id = with_key Message.message_id

abbrev pub message_of : ℕ → String → Sending → Message
message_of now id m = record {
  message_id = id;
  tenant_id = m.tenant_id;
  conversation_id = m.conversation_id;
  customer_phone = m.customer_phone;
  rep_name = m.rep_name;
  products = m.products;
  message_body = m.message_body;
  status = pending;
  attempt_count = 0;
  error_detail = none;
  created_at = now;
  sent_at = none;
  delivered_at = none;
  failed_at = none;
}

-- `queue_message(…)`, given the id that it would make up; an IntegrityError is passed over
unfoldable pub queue_message : ℕ → String → Sending → Messages → String × Messages
queue_message now fresh m messages =
    let id = if str_eq m.message_id "" then fresh else m.message_id in
    (
      id,
      if is_some (find (has_id id) messages)
          then messages
          else messages ++ message_of now id m ∷ [],
    )

-- `get_message(message_id)`
unfoldable pub get_message : String → Messages → Option Message
get_message id messages = find (has_id id) messages

-- `list_messages_for_customer(customer_phone, limit)`
abbrev pub for_phone : Text → Message → Bool
for_phone phone m = text_eq m.customer_phone phone

unfoldable pub list_messages_for_customer : Text → ℕ → Messages → Messages
list_messages_for_customer phone limit messages =
    take limit (order_desc Message.created_at (select (for_phone phone) messages))

-- an UPDATE of the row of the id, and whether there was one
mark : String → (Message → Message) → Messages → Bool × Messages
mark id fields messages = (any (has_id id) messages, update (has_id id) fields messages)

pub mark_queued : String → Messages → Bool × Messages
unfolding mark
mark_queued id messages = mark id (λ m. record m { status = queued }) messages

pub mark_delivered : ℕ → String → Messages → Bool × Messages
unfolding mark
mark_delivered now id messages =
    mark id (λ m. record m { status = delivered; delivered_at = some now }) messages

pub mark_failed : ℕ → String → Option Text → ℕ → Messages → Bool × Messages
unfolding mark
mark_failed now id error attempt_count messages =
    mark id
      (λ m. record m {
        status = failed;
        failed_at = some now;
        error_detail = error;
        attempt_count = attempt_count;
      })
      messages

abbrev is_pending : Message → Bool
is_pending m = elim m.status [ pending ↦ true | _ ↦ false ]

-- `pending_messages(limit)`
pub pending_messages : ℕ → Messages → Messages
pending_messages limit messages =
    take limit (order_by Message.created_at (select is_pending messages))
