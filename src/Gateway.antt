-- ===== src/Gateway.antt =====
-- voclyp/gateway/app.py: who may call the HTTP routes, and how often.
pub mod Rate
pub mod Auth
