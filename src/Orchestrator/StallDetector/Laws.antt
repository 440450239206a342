-- ===== src/Orchestrator/StallDetector/Laws.antt =====
-- The latest activity of a probe, the baseline of an entry, and when an issue counts as stalled.
use symphony_ts.Base.{
  ℕ, ◌+◌, ◌≤◌, ◌<◌, ◌≡◌, ◌↔◌, ◌⊎◌, inl, inr, refl, String, true, false, List, [], ◌∷◌, Option, none,
  some, arith, ltb, All, All-map, Bool-cases,
}
use symphony_ts.Domain.Workflow.{WatchdogConfig}
use symphony_ts.Orchestrator.StallDetector.{
  LivenessSnapshot, WatchdogEntry, ObservableActivity, latest_loop, latest_observable_activity,
  detected_candidates, detect_observable_activity, check_stall, credit_or_measure, credit, measure,
  resolve_stall_threshold_ms, is_credited,
}

-- `a` is the first of the latest activities of the list.
abbrev pub IsLatest : ObservableActivity → List ObservableActivity → Type 0
IsLatest a [] = ⊥
IsLatest a (c ∷ cs) = ((a ≡ c) × All (λ d. d.at ≤ a.at) cs) ⊎ ((c.at < a.at) × IsLatest a cs)

head-at :
    (b c : ObservableActivity) (cs : List ObservableActivity) → IsLatest b (c ∷ cs) → c.at ≤ b.at
head-at b c cs (inl (e, _)) = rw e (omega arith)
head-at b c cs (inr (h, _)) = omega arith

-- A candidate that is not later than the first one changes nothing.
IsLatest-skip :
    (b a c : ObservableActivity) (cs : List ObservableActivity)
    → c.at ≤ a.at
    → IsLatest b (a ∷ cs)
    → IsLatest b (a ∷ c ∷ cs)
IsLatest-skip b a c cs h (inl (e, hs)) = inl (e, (rw e h, hs))
IsLatest-skip b a c cs h (inr (k, hs)) = inr (k, inr (omega arith, hs))

loop-IsLatest :
    (a : ObservableActivity) (cs : List ObservableActivity)
    → (b : ObservableActivity) × ((latest_loop (some a) cs ≡ some b) × IsLatest b (a ∷ cs))
unfolding latest_loop
loop-IsLatest a [] = (a, (refl, inl (refl, tt)))
loop-IsLatest a (c ∷ cs) = elim (Bool-cases (ltb a.at c.at)) [
  | inl e ↦
      let (b, (run, later)) = loop-IsLatest c cs in
      let bound = head-at b c cs later in (b, (rw e run, inr (ground arith, later)))
  | inr e ↦
      let (b, (run, later)) = loop-IsLatest a cs in
      (b, (rw e run, IsLatest-skip b a c cs (ground arith) later))
]

-- For a nonempty list of candidates there is a latest activity, and it is the first one in the list
-- with the greatest time: every candidate before it is strictly earlier, none after it is later.
pub latest_observable_activity-IsLatest :
    (c : ObservableActivity) (candidates : List ObservableActivity)
    → (b : ObservableActivity) × ((latest_observable_activity (c ∷ candidates) ≡ some b)
        × IsLatest b (c ∷ candidates))
unfolding latest_observable_activity latest_loop
latest_observable_activity-IsLatest c candidates = loop-IsLatest c candidates

kept :
    (entry : WatchdogEntry) (current : LivenessSnapshot) (activity : Option ObservableActivity)
    (threshold : ℕ)
    → entry.last_observable_activity_at ≤ current.captured_at
    → let after = (credit_or_measure entry current activity threshold).1 in
      (entry.last_observable_activity_at ≤ after.last_observable_activity_at)
      × (after.last_observable_activity_at ≤ current.captured_at)
unfolding credit_or_measure credit measure
kept entry current none threshold h = (omega arith, h)
kept entry current (some activity) threshold h = ground arith

-- While the probe's clock is not behind the entry's baseline, a check keeps the baseline between its
-- old value and the clock, whatever times the runner reported: it never goes back and never lies in
-- the future.
pub check_stall-baseline :
    (date_parse : String → Option ℕ) (entry : WatchdogEntry) (current : LivenessSnapshot)
    (config : WatchdogConfig)
    → entry.last_observable_activity_at ≤ current.captured_at
    → let after = (check_stall date_parse entry current config).1 in
      (entry.last_observable_activity_at ≤ after.last_observable_activity_at)
      × (after.last_observable_activity_at ≤ current.captured_at)
unfolding check_stall
check_stall-baseline date_parse entry current config h = kept entry current _ _ h

IsLatest-below :
    (n : ℕ) (b : ObservableActivity) (cs : List ObservableActivity)
    → IsLatest b cs
    → b.at < n
    → All (λ d. d.at < n) cs
IsLatest-below n b [] bad h = elim bad [ ]
IsLatest-below n b (c ∷ cs) (inl (e, hs)) h =
    (rw⁻¹ e h, All-map (λ d. d.at ≤ b.at) (λ d. d.at < n) (λ d k. omega arith) cs hs)
IsLatest-below n b (c ∷ cs) (inr (k, hs)) h = (omega arith, IsLatest-below n b cs hs h)

below-IsLatest :
    (n : ℕ) (b : ObservableActivity) (cs : List ObservableActivity)
    → IsLatest b cs
    → All (λ d. d.at < n) cs
    → b.at < n
below-IsLatest n b [] bad _ = elim bad [ ]
below-IsLatest n b (c ∷ cs) (inl (e, _)) (h, _) = rw e h
below-IsLatest n b (c ∷ cs) (inr (_, hs)) (_, h) = below-IsLatest n b cs hs h

-- No candidate is credited exactly when each one is earlier than the baseline.
credited-none :
    (entry : WatchdogEntry) (cs : List ObservableActivity)
    → (is_credited entry (latest_observable_activity cs) ≡ false)
      ↔ All (λ d. d.at < entry.last_observable_activity_at) cs
unfolding latest_observable_activity latest_loop
credited-none entry [] = (λ _. tt, λ _. refl)
credited-none entry (c ∷ cs) =
    let (b, (run, latest)) = loop-IsLatest c cs in
    (
      λ h. IsLatest-below entry.last_observable_activity_at b (c ∷ cs) latest (ground arith),
      λ h.
          let below = below-IsLatest entry.last_observable_activity_at b (c ∷ cs) latest h in
          rw run (ground arith),
    )

measured :
    (entry : WatchdogEntry) (current : LivenessSnapshot) (activity : Option ObservableActivity)
    (threshold : ℕ)
    → ((credit_or_measure entry current activity threshold).0.stalled ≡ true) ↔ (
        (is_credited entry activity ≡ false)
        × (entry.last_observable_activity_at + threshold ≤ current.captured_at))
unfolding credit_or_measure credit measure
measured entry current none threshold = ground arith
measured entry current (some activity) threshold = ground arith

-- A check finds the runner stalled exactly when all activity that it detects since the previous
-- probe is dated before the baseline and at least the threshold has passed since the baseline.
pub stalled_iff :
    (date_parse : String → Option ℕ) (entry : WatchdogEntry) (current : LivenessSnapshot)
    (config : WatchdogConfig)
    → ((check_stall date_parse entry current config).0.stalled ≡ true) ↔ (
        All
          (λ d. d.at < entry.last_observable_activity_at)
          (detected_candidates date_parse entry.last_liveness current)
        × (entry.last_observable_activity_at + resolve_stall_threshold_ms current config
            ≤ current.captured_at))
unfolding check_stall detect_observable_activity
stalled_iff date_parse entry current config =
    let candidates = detected_candidates date_parse entry.last_liveness current in
    let (to, from) =
      measured entry current (latest_observable_activity candidates)
        (resolve_stall_threshold_ms current config) in
    let (below, none_credited) = credited-none entry candidates in
    (λ h. let (c, i) = to h in (below c, i), λ (h, i). from (none_credited h, i))
