-- ===== src/Lib.antt =====
-- Symphony: an orchestrator that polls an issue tracker, dispatches coding agents on issues, watches
-- the runs, retries failures and lands the pull requests. This library models the decisions of that
-- program, in shallow form: each state is a record, each operation a function that returns the new
-- state, and `now` is an argument. Names are those of the source in snake_case.
--
-- The parts, and the files that model them:
-- - Domain/Issue, Retry, Handoff, Workflow: the types of src/domain (issue.ts, queue-priority.ts,
--   retry.ts, transient-failure.ts, handoff.ts, workflow.ts) and the order of issues in the queue.
-- - Orchestrator/Retry: src/orchestrator/retry-state.ts, the queue of failed issues.
-- - Orchestrator/HostDispatch: src/orchestrator/host-dispatch-state.ts, which issue has which worker
--   host; HostDispatch/History is about all sequences of its operations.
-- - Orchestrator/DispatchQueue: src/orchestrator/dispatch-queue.ts, the queue of one poll.
-- - Orchestrator/LocalDispatch and FollowUp: local-dispatch-state.ts and follow-up-state.ts.
-- - Orchestrator/PollCycle: src/orchestrator/poll-cycle-coordinator.ts with `#startDispatchTask` of
--   service.ts. It asks Retry for the due retries, DispatchQueue for the queue and LocalDispatch for
--   the free slots.
-- - Orchestrator/StallDetector, Watchdog and Watchdog/Loop: stall-detector.ts, watchdog-state.ts and the
--   watchdog loop of service.ts, which checks each run and recovers a stalled one.
-- - Orchestrator/DispatchPressure, TerminalReporting, Landing, TransientFailure:
--   dispatch-pressure-state.ts, terminal-reporting-state.ts, landing-state.ts and
--   transient-failure-policy.ts.
-- - Orchestrator/WorkspaceRetention: workspace-retention.ts and `#applyTerminalWorkspacePolicy` of
--   service.ts, with what the cleanup of a workspace gives as an argument.
-- - Orchestrator/ContinuationTurns: continuation-turns.ts, when a run takes another turn.
-- - Tracker/Snapshot, PullRequestPolicy, GuardedLanding: the types of pull-request-snapshot.ts and
--   reviewer-app-types.ts, pull-request-policy.ts and guarded-landing.ts of src/tracker, with the
--   gate snapshot of github.ts. The policy says what a pull request waits for; the gate is asked
--   again at the moment of the merge.
-- - Tracker/Reviewers (Input, Devin, Legacy): reviewer-apps.ts, reviewer-app-devin.ts and
--   reviewer-app-legacy.ts, which read the checks, comments, reviews and threads of a pull request.
-- - Tracker/SnapshotCreation: `createPullRequestSnapshot` of pull-request-snapshot.ts, from the
--   responses of github-client.ts to the snapshot that the policy reads; its children Landing and
--   Safety follow a pull request from these responses to the policy's answer.
-- - Tracker/TextEngine: github-login.ts, landing-command-signal.ts, and the text functions of
--   JavaScript that the tracker uses, as the fields of a record that is a parameter.
-- - Tracker/ReadyPromotion: ready-promotion-policy.ts, which issues of a release may start.
-- - Domain/PlanReview and Tracker/PlanReview: src/domain/plan-review.ts, plan-review-policy.ts and
--   plan-review-signal.ts, the review of a plan by comments on the issue.
-- - Tracker/Linear and Linear/Lifecycle: linear-policy.ts, linear-state-name.ts and
--   linear-queue-priority.ts, what the state, workpad and comments of a Linear issue mean.
-- - Observability/OperatorReadyPromotion: src/observability/operator-ready-promotion.ts, which asks
--   that policy and changes the ready labels of the issues on GitHub.
-- - Operator/StateMachine: src/operator/state-machine.ts and `moveTo` of runtime.ts.
-- - Base: maps in insertion order, as JavaScript has them, sets, stable sorting, texts, integers.
-- - Tests: concrete runs.
--
-- Numbers: issue numbers, counts and times in milliseconds are natural numbers, differences of times
-- and ranks are integers, both unbounded where the source has doubles. No function needs fuel: the
-- loops run over finite lists. `show` alone uses fuel, one more than the number it prints.
-- Parameters: `Date.parse` and `toISOString` (which throws out of the range of `Date`), the issues on
-- GitHub that ready promotion reads and changes, the functions of texts in Tracker/TextEngine (lower
-- case, regular expressions by name), the probes of the watchdog, the candidates of a poll, and the
-- regular expressions that classify the message of a failure.
--
-- Not modelled: the tracker clients, the runners, the workspaces, the command line, status
-- publication and logging, which are input and output; and restart recovery, leases, the Linear
-- workpad and normalisation, and the operator's leases and commands.
pub mod Base
pub mod Domain
pub mod Orchestrator
pub mod Tracker
pub mod Operator
pub mod Observability
pub mod Tests
