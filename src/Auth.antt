-- ===== src/Auth.antt =====
-- backend/main.py's authentication helpers and middleware, and backend/routes/auth.py.
pub mod Http
pub mod Login
pub mod Health
pub mod Gate
