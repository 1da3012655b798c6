-- ===== src/Plan.antt =====
-- src/mailmap/cleanup_plan_model.py and src/mailmap/cleanup_plan_domain.py: the cleanup plans.
pub mod Result
pub mod Reasons
pub mod Model
pub mod Equality
pub mod Validate
pub mod Composition
pub mod Catalog
pub mod Select
pub mod Samples
pub mod Create
pub mod Revise
pub mod Precedence
pub mod Contract
pub mod RemovalCodes
pub mod Counting
pub mod Ledger
pub mod Removed
pub mod RemovalLedger
pub mod Active
pub mod Sizes
pub mod Preservation
pub mod Outcomes
pub mod Inversion
pub mod Commands
pub mod Kept
pub mod Completeness
pub mod Refusals
pub mod Trace
pub mod Selected
pub mod Creation
pub mod Quota
pub mod Newest
pub mod MemberReasons
mod Tests
