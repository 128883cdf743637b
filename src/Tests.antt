-- ===== src/Tests.antt =====
-- Concrete runs of the models, and one instance of each theorem at an input that meets its
-- hypotheses.
mod Sample
mod Rates
mod Access
mod Backend
mod Boards
mod Network
mod Parts
mod Rows
