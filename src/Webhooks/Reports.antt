-- ===== src/Webhooks/Reports.antt =====
-- The listings of the webhook tables (voclyp/store.py): `list_endpoints`, `deliveries_for` and
-- `delivery_stats`. A rate is the pair of counts of which the source rounds the quotient; the version
-- of the payloads is left out.
use voclyp_dev.Prelude.{
  ℕ, ◌+◌, ◌≡◌, refl, String, Bool, true, false, ◌&&◌, ◌==◌, Option, none, some, List, [], ◌∷◌, ◌++◌,
  map, arith, if◌then◌else◌, ltb, str_eq, find, select, count,
}
use voclyp_dev.Webhooks.{
  Endpoint, EndpointStatus, Delivery, DeliveryStatus, pending, retrying, delivered, dead, blocked,
  Detail, Event, Store, in_flight, is_dead,
}

-- an entry of `list_endpoints`
pub record Listed : Type 0 where
  pub id : String
  pub url : String
  pub event_types : List String
  pub status : EndpointStatus
  pub created_at : ℕ

pub list_endpoints : String → Store → List Listed
list_endpoints tenant_id s =
    map
      (λ e. record {
        id = e.id;
        url = e.url;
        event_types = e.event_types;
        status = e.status;
        created_at = e.created_at;
      })
      (select (λ e. str_eq e.tenant_id tenant_id) s.endpoints)

-- an entry of `deliveries_for`
pub record Line : Type 0 where
  pub url : String
  pub event_id : String
  pub attempt : ℕ
  pub status : DeliveryStatus
  pub response_code : Option ℕ
  pub detail : Detail
  pub ts : ℕ

same_status : DeliveryStatus → DeliveryStatus → Bool
same_status pending pending = true
same_status retrying retrying = true
same_status delivered delivered = true
same_status dead dead = true
same_status blocked blocked = true
same_status _ _ = false

-- `o.resource_id=?`, which a delivery with no event in the outbox does not meet
about_resource : String → Option Event → Bool
about_resource conversation_id none = false
about_resource conversation_id (some o) = str_eq o.resource_id conversation_id

-- the optional conditions; an empty conversation id is falsy
of_conversation : Option String → Option Event → Bool
unfolding about_resource
of_conversation none o = true
of_conversation (some c) o = if str_eq c "" then true else about_resource c o

of_status : Option DeliveryStatus → DeliveryStatus → Bool
unfolding same_status
of_status none status = true
of_status (some wanted) status = same_status status wanted

-- the row of the JOIN on the endpoint's id
line_of : Delivery → Option Endpoint → List Line
line_of d none = []
line_of d (some e) =
    record {
      url = e.url;
      event_id = d.event_id;
      attempt = d.attempt;
      status = d.status;
      response_code = d.response_code;
      detail = d.detail;
      ts = d.updated_at;
    }
    ∷ []

lines_of : List Endpoint → List Delivery → List Line
unfolding line_of
lines_of endpoints [] = []
lines_of endpoints (d ∷ ds) =
    line_of d (find (λ e. str_eq e.id d.endpoint_id) endpoints) ++ lines_of endpoints ds

pub deliveries_for : String → Option String → Option DeliveryStatus → Store → List Line
unfolding lines_of of_conversation of_status
deliveries_for tenant_id conversation_id status s = lines_of s.endpoints (
    select
      (λ d.
        str_eq d.tenant_id tenant_id
        && of_conversation conversation_id (find (λ o. str_eq o.event_id d.event_id) s.outbox)
        && of_status status d.status)
      s.deliveries)

-- an entry of `delivery_stats`
pub record Health : Type 0 where
  pub endpoint_id : String
  pub url : String
  pub endpoint_status : EndpointStatus
  pub delivered : ℕ
  pub dlq_depth : ℕ
  pub in_flight : ℕ
  pub success_rate : Option (ℕ × ℕ)
  pub retry_rate : Option (ℕ × ℕ)

is_delivered : DeliveryStatus → Bool
is_delivered delivered = true
is_delivered _ = false

rate : ℕ → ℕ → Option (ℕ × ℕ)
rate part whole = if whole == 0 then none else some (part, whole)

pub health_of : List Delivery → Endpoint → Health
unfolding is_delivered rate
health_of ds e =
    let succeeded = count (λ d. is_delivered d.status) ds in
    let given_up = count (λ d. is_dead d.status) ds in
    record {
      endpoint_id = e.id;
      url = e.url;
      endpoint_status = e.status;
      delivered = succeeded;
      dlq_depth = given_up;
      in_flight = count (λ d. in_flight d.status) ds;
      success_rate = rate succeeded (succeeded + given_up);
      retry_rate = rate (count (λ d. ltb 1 d.attempt) ds) (count (λ d. true) ds);
    }

pub delivery_stats : String → Store → List Health
unfolding health_of
delivery_stats tenant_id s =
    map (λ e. health_of (select (λ d. str_eq d.endpoint_id e.id) s.deliveries) e)
      (select (λ e. str_eq e.tenant_id tenant_id) s.endpoints)

abbrev is_blocked : DeliveryStatus → Bool
is_blocked blocked = true
is_blocked _ = false

one_of :
    (s : DeliveryStatus)
    → (if is_delivered s then 1 else 0)
        + (if is_dead s then 1 else 0)
        + (if in_flight s then 1 else 0)
        + (if is_blocked s then 1 else 0)
      ≡ 1
unfolding is_delivered
one_of pending = refl
one_of retrying = refl
one_of delivered = refl
one_of dead = refl
one_of blocked = refl

-- Every delivery of an endpoint is counted as delivered, dead or in flight, unless it was blocked.
pub health_of-total :
    (ds : List Delivery) (e : Endpoint)
    → let h = health_of ds e in
      h.delivered + h.dlq_depth + h.in_flight + count (λ d. is_blocked d.status) ds
      ≡ count (λ d. true) ds
unfolding health_of
health_of-total [] e = refl
health_of-total (d ∷ ds) e = omega (arith, one_of d.status, health_of-total ds e)
