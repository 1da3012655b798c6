-- ===== src/Plan/Tests.antt =====
-- Runs of the plan engine on a small account, and the theorems applied to them.
mod Data
mod Runs
mod Examples
