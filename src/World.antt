-- ===== src/World.antt =====
-- What a handler of the backend runs in: the database, the audit log, the requests sent to boards,
-- and an environment that answers everything which the code under backend/ does not compute.
-- An action may raise; what it wrote before stays written, as in Python.
mod Scans
mod Effects
pub mod Preserves
pub mod Results
unfoldable pub use Effects.*
pub use Scans.*
