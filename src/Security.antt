-- ===== src/Security.antt =====
-- backend/security.py: the allow-list of addresses that the backend may contact, the cache of the
-- host's own networks, and the checks at startup.
pub mod Address
pub mod Allow
pub mod Startup
pub mod Commands
pub mod Contact
