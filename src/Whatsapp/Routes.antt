-- ===== src/Whatsapp/Routes.antt =====
-- The recommendation routes of voclyp/gateway/app.py, on what `require` let through.
use voclyp_dev.Prelude.{
  ℕ, String, ◌&&◌, Option, none, some, List, [], ◌∷◌, ◌++◌, map, if◌then◌else◌, Text, codes,
  text_eq, join,
}
use voclyp_dev.Gateway.Auth.{Principal, Reply, ok, http}
use voclyp_dev.Whatsapp.{
  Message, Messages, Sending, queue_message, get_message, list_messages_for_customer,
}

-- `p.get("name", "Product")` and `p.get("price", 0)`, as they are printed
pub record Product : Type 0 where
  pub name : Text
  pub price : Text

-- the body of the request, with its defaults filled in
pub record Request : Type 0 where
  pub customer_phone : Text
  pub conversation_id : String
  pub products : List Product
  pub rep_name : Text
  pub message_template : Text
  pub message_body : Text

-- what the route answers, with the entry that it adds to the audit log
pub record Sent : Type 0 where
  pub message_id : String
  pub status : Text
  pub customer_phone : Text
  pub created_at : Option ℕ
  pub audited : Text × String × String × Text

product_line : Product → Text
product_line p = codes "• " ++ p.name ++ codes " — ₹" ++ p.price

-- the default template
default_body : List Product → Text
unfolding product_line
default_body products =
    codes "Hi from The Sleep Company!"
    ++ (10 ∷ 10 ∷ codes "Based on our visit today, I recommend:")
    ++ (10 ∷ 10 ∷ join 10 (map product_line products))
    ++ (10 ∷ 10 ∷ codes "Reply here for trial, EMI, or home delivery options.")

body_of : Request → Text
unfolding default_body
body_of r =
    if text_eq r.message_body [] && text_eq r.message_template (codes "default")
    then default_body r.products
    else r.message_body

abbrev created : Option Message → Option ℕ
created none = none
created (some m) = some m.created_at

-- `send_whatsapp_recommendation`, given the id that the queue makes up; `dumps` writes JSON
pub send_whatsapp_recommendation :
    (List Product → Text) → ℕ → String → Principal → Request → Messages → Reply Sent × Messages
unfolding body_of
send_whatsapp_recommendation dumps now fresh auth r messages =
    let sending : Sending = record {
      tenant_id = auth.tenant_id;
      conversation_id = r.conversation_id;
      customer_phone = r.customer_phone;
      products = dumps r.products;
      message_body = body_of r;
      message_id = "";
      rep_name = some r.rep_name;
    } in
    let (message_id, messages') = queue_message now fresh sending messages in
    if text_eq r.customer_phone [] then (http 400, messages) else (
      ok (record {
        message_id = message_id;
        status = codes "queued";
        customer_phone = r.customer_phone;
        created_at = created (get_message message_id messages');
        audited = (auth.tenant_id, r.conversation_id, message_id, r.customer_phone);
      }),
      messages',
    )

-- `get_recommendation_status`
unfoldable pub get_recommendation_status : String → Principal → Messages → Reply Message
get_recommendation_status message_id auth messages = elim (get_message message_id messages) [
  | none ↦ http 404
  | some m ↦ if text_eq m.tenant_id auth.tenant_id then ok m else http 404
]

-- `list_recommendations`
unfoldable pub list_recommendations : Text → Principal → Messages → Reply Messages
list_recommendations customer_phone auth messages =
    if text_eq customer_phone []
    then http 400
    else ok (list_messages_for_customer customer_phone 20 messages)
