-- ===== src/Devices.antt =====
-- backend/routes/devices.py, and the helpers of it that stand in backend/main.py.
pub mod Validate
pub mod Upsert
pub mod Rows
pub mod Messages
pub mod Forms
pub mod Batch
pub mod Firmware
pub mod Listing
pub mod Confined
