-- ===== src/Whatsapp/Tests.antt =====
-- The recommendation messages (voclyp/whatsapp.py) of one customer of two tenants.
use voclyp_dev.Prelude.{◌≡◌, refl, true, none, some, [], ◌∷◌, arith, any, Text}
use voclyp_dev.Gateway.Auth.{Principal, ok}
use voclyp_dev.Whatsapp.{
  Messages, Sending, has_id, message_of, queue_message, get_message, mark_delivered, mark,
  pending_messages,
}
use voclyp_dev.Whatsapp.Routes.{get_recommendation_status, list_recommendations}
use voclyp_dev.Whatsapp.Isolation.{list_recommendations-foreign}

abbrev phone : Text
phone = 43 ∷ 57 ∷ []

abbrev tenant : Text
tenant = 116 ∷ []

abbrev sending : Sending
sending = record {
  tenant_id = tenant;
  conversation_id = "c1";
  customer_phone = phone;
  products = [];
  message_body = 104 ∷ [];
  message_id = "";
  rep_name = none;
}

abbrev messages : Messages
messages = message_of 4 "m1" sending ∷ []

abbrev caller : Text → Principal
caller tenant_id = record { tenant_id = tenant_id; scopes = []; user_id = none }

delivers : pending_messages 100 (mark_delivered 9 "m1" messages).1 ≡ []
unfolding pending_messages mark_delivered mark
delivers = refl

shown : get_recommendation_status "m1" (caller tenant) messages ≡ ok (message_of 4 "m1" sending)
unfolding get_recommendation_status get_message
shown = refl

stored : get_message "m1" messages ≡ some (message_of 4 "m1" sending)
unfolding get_message
stored = refl

list_recommendations-foreign_example :
    (rows : Messages) × (list_recommendations phone (caller (117 ∷ [])) messages ≡ ok rows)
    × (any (has_id "m1") rows ≡ true)
list_recommendations-foreign_example =
    list_recommendations-foreign "m1" phone (caller (117 ∷ [])) messages refl stored refl
      (omega arith)

new : get_message (queue_message 4 "m1" sending []).0 [] ≡ none
unfolding get_message queue_message
new = refl
