-- ===== src/Orchestrator.antt =====
-- The state of the orchestrator and its operations, from src/orchestrator.
pub mod Retry
pub mod HostDispatch
pub mod FollowUp
pub mod DispatchQueue
pub mod PollCycle
pub mod LocalDispatch
pub mod StallDetector
pub mod Watchdog
pub mod DispatchPressure
pub mod TerminalReporting
pub mod Landing
pub mod TransientFailure
pub mod WorkspaceRetention
pub mod ContinuationTurns
