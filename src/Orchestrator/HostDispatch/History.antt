-- ===== src/Orchestrator/HostDispatch/History.antt =====
-- Every history of host operations: which host keeps which issue.
use symphony_ts.Base.{
  ℕ, String, ◌≡◌, refl, ◌∙◌, true, false, List, [], ◌∷◌, ◌++◌, Option, none, some, arith, ◌≢◌,
  is_some, if-both, nat_eq, string_eq, option_eq, nat_beq, ◌==◌, All, Bool-cases, inl, inr, ap,
  option_beq_iff, sym, subst,
}
use text.Mathlib.TextEquality.{eq_iff}
use symphony_ts.Base.Dict
use symphony_ts.Base.Dict.{Dict}
use symphony_ts.Base.Dict.Laws.{IsDistinct, set-IsDistinct, delete-IsDistinct}
use symphony_ts.Domain.Workflow.{SshWorkerHostConfig}
use symphony_ts.Orchestrator.HostDispatch.{
  HostDispatchRuntimeState, HostReservation, selected, occupy, owner, create_host_dispatch_state,
  reserve_host_for_issue, bind_host_reservation_to_run_session, claim_host_for_issue,
  note_preferred_host, clear_preferred_host, release_host_for_issue, release_loop,
  read_preferred_host, is_occupied,
}
use symphony_ts.Orchestrator.HostDispatch.Release.{owner-release}
use symphony_ts.Orchestrator.HostDispatch.Laws.{
  owner-occupy, owner-bind, claim_cases, is_occupied-owner, reserve_cases, reserve_preferred_free,
}

pub data Op : Type 0 where
  reserve : ℕ → Op
  bind : String → ℕ → String → Op
  claim : String → ℕ → Option String → Op
  note_preferred : ℕ → String → Op
  clear_preferred : ℕ → Op
  release : ℕ → Op

unfoldable pub apply : HostDispatchRuntimeState → Op → HostDispatchRuntimeState
apply s (reserve n) = (reserve_host_for_issue s n).1
apply s (bind h n r) = bind_host_reservation_to_run_session s h n r
apply s (claim h n r) = (claim_host_for_issue s h n r).1
apply s (note_preferred n h) = note_preferred_host s n h
apply s (clear_preferred n) = clear_preferred_host s n
apply s (release n) = release_host_for_issue s n

unfoldable pub run : HostDispatchRuntimeState → List Op → HostDispatchRuntimeState
run s [] = s
run s (op ∷ ops) = run (apply s op) ops

-- The owner of a host and the shape of the occupancy after a reservation, in each of its cases.
abbrev Kept : HostDispatchRuntimeState → HostDispatchRuntimeState → Type 0
Kept s t =
    ((h : String) (k : ℕ) → owner s h ≡ some k → owner t h ≡ some k)
    × (IsDistinct s.occupancy_by_host → IsDistinct t.occupancy_by_host)

occupy-Kept :
    (s : HostDispatchRuntimeState) (h : String) (n : ℕ) (r : Option String)
    → ((k : ℕ) → owner s h ≡ some k → n ≡ k)
    → Kept s (occupy s h n r)
occupy-Kept s h n r same = (
  λ j k e. ground (arith, owner-occupy s h n r j, eq_iff h j, same k),
  λ d. unfold occupy in set-IsDistinct s.occupancy_by_host h _ d,
)

Kept-refl : (s : HostDispatchRuntimeState) → Kept s s
Kept-refl s = (λ h k e. e, λ d. d)

reserve-Kept : (s : HostDispatchRuntimeState) (n : ℕ) → Kept s (reserve_host_for_issue s n).1
reserve-Kept s n = elim (reserve_cases s n) [
  | inl (w, took) ↦
      subst (Kept s) (sym took.after)
        (occupy-Kept s took.host n none (λ k e. let free = took.free in cc))
  | inr same ↦ subst (Kept s) (sym same) (Kept-refl s)
]

claim-Kept :
    (s : HostDispatchRuntimeState) (h : String) (n : ℕ) (r : Option String)
    → Kept s (claim_host_for_issue s h n r).1
claim-Kept s h n r = elim (claim_cases s h n r) [
  | inl (known, free, e) ↦
      subst (λ p. Kept s p.1) (sym e) (occupy-Kept s h n r (λ k t. ground arith))
  | inr (inl (unknown, e)) ↦ subst (λ p. Kept s p.1) (sym e) (Kept-refl s)
  | inr (inr (k, known, other, taken, e)) ↦ subst (λ p. Kept s p.1) (sym e) (Kept-refl s)
]

release_loop-IsDistinct :
    (n : ℕ) (entries m : Dict String HostReservation)
    → IsDistinct m
    → IsDistinct (release_loop n entries m)
unfolding release_loop
release_loop-IsDistinct n [] m d = d
release_loop-IsDistinct n ((h, r) ∷ entries) m d = elim (Bool-cases (nat_beq r.issue_number n)) [
  | inl mine ↦
      rw (mine, release_loop, IsDistinct)
        (release_loop-IsDistinct n entries (Dict.delete m h) (delete-IsDistinct m h d))
  | inr other ↦ rw (other, release_loop, IsDistinct) (release_loop-IsDistinct n entries m d)
]

-- An operation that is no release of the issue `k`.
abbrev pub IsNoRelease : ℕ → Op → Type 0
IsNoRelease k (release n) = n ≢ k
IsNoRelease k _ = Unit

apply-keeps_owner :
    (s : HostDispatchRuntimeState) (op : Op) (h : String) (k : ℕ)
    → IsDistinct s.occupancy_by_host
    → IsNoRelease k op
    → owner s h ≡ some k
    → owner (apply s op) h ≡ some k
unfolding apply
apply-keeps_owner s (reserve n) h k d q e = (reserve-Kept s n).0 h k e
apply-keeps_owner s (bind j n r) h k d q e = owner-bind s j n r h ∙ e
apply-keeps_owner s (claim j n r) h k d q e = (claim-Kept s j n r).0 h k e
apply-keeps_owner s (note_preferred n j) h k d q e =
    unfold note_preferred_host owner in ground arith
apply-keeps_owner s (clear_preferred n) h k d q e = unfold clear_preferred_host owner in e
apply-keeps_owner s (release n) h k d q e =
    ground (arith, owner-release s n h d, option_beq_iff (owner s h) (some n))

apply-IsDistinct :
    (s : HostDispatchRuntimeState) (op : Op)
    → IsDistinct s.occupancy_by_host
    → IsDistinct (apply s op).occupancy_by_host
unfolding apply
apply-IsDistinct s (reserve n) d = (reserve-Kept s n).1 d
apply-IsDistinct s (bind j n r) d =
    unfold bind_host_reservation_to_run_session occupy in
    if-both (λ (t : HostDispatchRuntimeState). IsDistinct t.occupancy_by_host) (owner s j == some n)
      (set-IsDistinct s.occupancy_by_host j _ d) d
apply-IsDistinct s (claim j n r) d = (claim-Kept s j n r).1 d
apply-IsDistinct s (note_preferred n j) d =
    unfold note_preferred_host in
    if-both (λ (t : HostDispatchRuntimeState). IsDistinct t.occupancy_by_host)
      (is_some (Dict.get s.worker_hosts_by_name j)) d d
apply-IsDistinct s (clear_preferred n) d = unfold clear_preferred_host in d
apply-IsDistinct s (release n) d =
    unfold release_host_for_issue in release_loop-IsDistinct n s.occupancy_by_host _ d

run-keeps_owner :
    (s : HostDispatchRuntimeState) (ops : List Op) (h : String) (k : ℕ)
    → IsDistinct s.occupancy_by_host
    → All (IsNoRelease k) ops
    → owner s h ≡ some k
    → owner (run s ops) h ≡ some k
unfolding run
run-keeps_owner s [] h k d q e = e
run-keeps_owner s (op ∷ ops) h k d (q, qs) e =
    run-keeps_owner (apply s op) ops h k (apply-IsDistinct s op d) qs
      (apply-keeps_owner s op h k d q e)

run-IsDistinct :
    (s : HostDispatchRuntimeState) (ops : List Op)
    → IsDistinct s.occupancy_by_host
    → IsDistinct (run s ops).occupancy_by_host
unfolding run
run-IsDistinct s [] d = d
run-IsDistinct s (op ∷ ops) d = run-IsDistinct (apply s op) ops (apply-IsDistinct s op d)

run-append :
    (s : HostDispatchRuntimeState) (ops later : List Op)
    → run s (ops ++ later) ≡ run (run s ops) later
unfolding run
run-append s [] later = refl
run-append s (op ∷ ops) later = run-append (apply s op) ops later

-- Mutual exclusion over every history from the empty state: a host that has an issue after some
-- operations still has that issue after any further operations with no release of that issue.
-- Reservations, claims, bindings and preferences of other issues, or of this one, never take it.
pub run_holds :
    (hosts : List SshWorkerHostConfig) (ops later : List Op) (h : String) (k : ℕ)
    → owner (run (create_host_dispatch_state hosts) ops) h ≡ some k
    → All (IsNoRelease k) later
    → owner (run (create_host_dispatch_state hosts) (ops ++ later)) h ≡ some k
run_holds hosts ops later h k e q =
    let s : HostDispatchRuntimeState = create_host_dispatch_state hosts in
    let d : IsDistinct s.occupancy_by_host = unfold create_host_dispatch_state in tt in
    ap (λ t. owner t h) (run-append s ops later)
    ∙ run-keeps_owner (run s ops) later h k (run-IsDistinct s ops d) q e

-- Retry continuity: an issue that holds its preferred, configured host gets that very host again,
-- as the preferred one, when it reserves right after its release.
pub reserve-release :
    (s : HostDispatchRuntimeState) (n : ℕ) (h : String) (w : SshWorkerHostConfig)
    → IsDistinct s.occupancy_by_host
    → read_preferred_host s n ≡ some h
    → Dict.get s.worker_hosts_by_name h ≡ some w
    → owner s h ≡ some n
    → ((reserve_host_for_issue (release_host_for_issue s n) n).0 ≡ selected w true)
      × (owner (reserve_host_for_issue (release_host_for_issue s n) n).1 h ≡ some n)
reserve-release s n h w d p c e =
    let t : HostDispatchRuntimeState = release_host_for_issue s n in
    let free : is_occupied t h ≡ false =
      ground (
        arith,
        is_occupied-owner t h,
        owner-release s n h d,
        option_beq_iff (owner s h) (some n),
      ) in
    let prefers : read_preferred_host t n ≡ some h =
      unfold release_host_for_issue read_preferred_host in p in
    let known : Dict.get t.worker_hosts_by_name h ≡ some w = unfold release_host_for_issue in c in
    let result = reserve_preferred_free t n h w prefers known free in
    (
      ap (λ r. r.0) result,
      ap (λ r. owner r.1 h) result ∙ ground (arith, owner-occupy t h n none h, eq_iff h h),
    )
