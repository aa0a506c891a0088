-- ===== src/Security.antt =====
-- voclyp/security.py, part by part.
mod Tests
pub mod HashChain
pub mod Ssrf
pub mod Tokens
pub mod Signatures
