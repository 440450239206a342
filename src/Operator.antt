-- ===== src/Operator.antt =====
-- The operator loop, from src/operator.
pub mod StateMachine
