-- ===== src/Webhooks/Tables.antt =====
-- The rows of the webhook tables of voclyp/store.py, and the state that its methods change.
use voclyp_dev.Prelude.{ℕ, String, Bool, Option, List, []}
use voclyp_dev.Security.Ssrf.{UrlCheck}

pub data EndpointStatus : Type 0 where
  active disabled : EndpointStatus

-- a row of `webhook_endpoints`; `event_types` is kept as the list that its readers split it into
pub record Endpoint : Type 0 where
  pub id : String
  pub tenant_id : String
  pub url : String
  pub secret : String
  pub secret_prev : Option String
  pub rotated_at : Option ℕ
  pub event_types : List String
  pub status : EndpointStatus
  pub created_at : ℕ

pub data DeliveryStatus : Type 0 where
  pending retrying delivered dead blocked : DeliveryStatus

-- the texts that are stored in `detail`
pub data Detail : Type 0 where
  no_detail endpoint_missing : Detail
  ssrf : UrlCheck → Detail
  raised : String → Detail

-- a row of `webhook_deliveries`
pub record Delivery : Type 0 where
  pub id : ℕ
  pub tenant_id : String
  pub endpoint_id : String
  pub event_id : String
  pub attempt : ℕ
  pub status : DeliveryStatus
  pub response_code : Option ℕ
  pub detail : Detail
  pub next_retry_at : ℕ
  pub updated_at : ℕ

-- a row of `outbox`
pub record Event : Type 0 where
  pub event_id : String
  pub tenant_id : String
  pub event_type : String
  pub resource : String
  pub resource_id : String
  pub resource_status : String
  pub sequence : ℕ
  pub occurred_at : ℕ
  pub fanned_out : Bool

-- the audit entries that these methods write, with the values in their `detail`
pub data AuditCall : Type 0 where
  webhook_registered : String → String → String → AuditCall
  webhook_secret_rotated : String → String → AuditCall
  webhook_status : String → EndpointStatus → String → AuditCall
  dlq_replayed : String → ℕ → Option String → AuditCall
  delivery_dead_lettered : String → String → String → String → AuditCall

pub record Store : Type 0 where
  pub endpoints : List Endpoint
  pub deliveries : List Delivery
  pub last_delivery : ℕ
  pub outbox : List Event
  pub audits : List AuditCall

abbrev pub init : Store
init = record { endpoints = []; deliveries = []; last_delivery = 0; outbox = []; audits = [] }
