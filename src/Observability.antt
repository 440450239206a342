-- ===== src/Observability.antt =====
-- What the operator does with the stored summaries of issues, from src/observability.
pub mod OperatorReadyPromotion
