-- ===== src/Session/Tests.antt =====
-- Runs of a session over a small world, and the theorems at it.
mod Data
mod Runs
mod Laws
mod Callbacks
mod Store
