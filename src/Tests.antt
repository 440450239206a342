-- ===== src/Tests.antt =====
-- Concrete runs of the components, and the theorems at concrete states.
mod Data
mod Dispatch
mod Hosts
mod LinearIssues
mod Operator
mod PlanReviews
mod Pressure
mod Promotions
mod PullRequests
mod Retries
mod Snapshots
mod Stalls
