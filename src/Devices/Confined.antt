-- ===== src/Devices/Confined.antt =====
-- Which addresses the handlers of backend/routes/devices.py contact.
pub mod Messages
pub mod Batch
pub mod Rows
