-- ===== src/Boards.antt =====
-- backend/routes/config.py: reading and rewriting the configuration of boards.
pub mod Templates
pub mod Content
pub mod Tasks
pub mod Routes
pub mod Confined
