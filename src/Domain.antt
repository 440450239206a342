-- ===== src/Domain.antt =====
-- The records that the components share, from src/domain.
pub mod Issue
pub mod Retry
pub mod Handoff
pub mod Workflow
pub mod PlanReview
