-- ===== src/Scan.antt =====
-- backend/routes/scan.py: the registry of scans, the worker of a scan, and the routes.
pub mod Registry
pub mod Hosts
pub mod Worker
pub mod Routes
pub mod Confined
pub mod Reach
pub mod Started
