-- ===== src/Orchestrator/ContinuationTurns.antt =====
-- src/orchestrator/continuation-turns.ts: whether a run takes another turn, and what it reports when
-- it has used up its turns.
use symphony_ts.Base.{ℕ, String, Bool, true, false, [], ◌∷◌, leb, if◌then◌else◌, ◌<◌, ◌≡◌, arith}
use symphony_ts.Base.Text.{cat, show}
use symphony_ts.Domain.Handoff.{
  HandoffLifecycle, HandoffLifecycleKind, missing_target, awaiting_human_handoff,
  awaiting_human_review, awaiting_system_checks, degraded_review_infrastructure,
  awaiting_landing_command, awaiting_landing, rework_required, handoff_ready,
}

-- The texts of a lifecycle's kind.
unfoldable pub kind_text : HandoffLifecycleKind → String
kind_text missing_target = "missing-target"
kind_text awaiting_human_handoff = "awaiting-human-handoff"
kind_text awaiting_human_review = "awaiting-human-review"
kind_text awaiting_system_checks = "awaiting-system-checks"
kind_text degraded_review_infrastructure = "degraded-review-infrastructure"
kind_text awaiting_landing_command = "awaiting-landing-command"
kind_text awaiting_landing = "awaiting-landing"
kind_text rework_required = "rework-required"
kind_text handoff_ready = "handoff-ready"

unfoldable pub has_remaining_work : HandoffLifecycleKind → Bool
has_remaining_work rework_required = true
has_remaining_work missing_target = true
has_remaining_work kind = false

unfoldable pub should_continue_turn_loop : HandoffLifecycle → ℕ → ℕ → Bool
should_continue_turn_loop lifecycle turn_number max_turns =
    if leb max_turns turn_number then false else has_remaining_work lifecycle.kind

unfoldable pub build_max_turns_summary : HandoffLifecycle → ℕ → String
build_max_turns_summary lifecycle max_turns = cat (
    "Reached agent.max_turns ("
    ∷ show max_turns
    ∷ ") with remaining "
    ∷ kind_text lifecycle.kind
    ∷ " work: "
    ∷ lifecycle.summary
    ∷ [])

unfoldable pub summarize_turn_budget_exhaustion : HandoffLifecycle → ℕ → String
summarize_turn_budget_exhaustion lifecycle max_turns =
    if leb max_turns 1 then lifecycle.summary else build_max_turns_summary lifecycle max_turns

unfoldable pub summarize_missing_target_failure : HandoffLifecycle → ℕ → String
summarize_missing_target_failure lifecycle max_turns =
    summarize_turn_budget_exhaustion lifecycle max_turns

-- A turn that another one follows is not the last that the configuration allows.
should_continue-lt :
    (lifecycle : HandoffLifecycle) (turn_number max_turns : ℕ)
    → should_continue_turn_loop lifecycle turn_number max_turns ≡ true
    → turn_number < max_turns
unfolding should_continue_turn_loop
should_continue-lt lifecycle turn_number max_turns h = ground arith
