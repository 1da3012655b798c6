-- ===== src/Service.antt =====
-- src/mailmap/service.py: the simulated clean-up plans of the synthetic map.
pub mod Judge
pub mod Plans
pub mod Selected
pub mod Created
pub mod Rechecked
pub mod Revalidated
mod Tests
