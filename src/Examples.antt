-- ===== src/Examples.antt =====
-- Concrete inputs, and the theorems applied to them.
mod Data
mod Gate
mod Values
mod Execution
mod Requests
mod Handover
mod Restart
mod Closures
mod Finishes
mod Traced
mod Initial
mod Answers
