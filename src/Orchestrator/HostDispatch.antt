-- ===== src/Orchestrator/HostDispatch.antt =====
-- src/orchestrator/host-dispatch-state.ts: which issue occupies which worker host. The record
-- `workerHostsByName` is a map without the names that every JavaScript object inherits.
pub mod Laws
pub mod Release
pub mod History
use symphony_ts.Base.{
  ℕ, ◌+◌, String, Bool, true, false, not, List, [], ◌∷◌, ◌++◌, map, Option, none, some, ltb,
  is_some, filter, length, if◌then◌else◌, nat_eq, string_eq, option_eq, nat_beq, ◌==◌, leb,
}
use symphony_ts.Base.Int.{sub_ℕ}
use symphony_ts.Base.Sort.{sort_by}
use symphony_ts.Base.Dict
use symphony_ts.Base.Dict.{Dict}
use symphony_ts.Domain.Workflow.{SshWorkerHostConfig}

pub record HostReservation : Type 0 where
  pub issue_number : ℕ
  pub run_session_id : Option String

pub record HostDispatchHostSnapshot : Type 0 where
  pub name : String
  pub occupied_by_issue_number : Option ℕ
  pub preferred_issue_numbers : List ℕ

pub record HostDispatchRuntimeState : Type 0 where
  pub worker_hosts_by_name : Dict String SshWorkerHostConfig
  pub host_order : List String
  pub occupancy_by_host : Dict String HostReservation
  pub preferred_host_by_issue_number : Dict ℕ String

pub data HostReservationResult : Type 0 where
  selected : SshWorkerHostConfig → Bool → HostReservationResult
  blocked : Option String → List String → HostReservationResult

-- `Object.fromEntries`: a later entry replaces an earlier one of its name.
unfoldable pub from_entries :
    List (String × SshWorkerHostConfig)
    → Dict String SshWorkerHostConfig
    → Dict String SshWorkerHostConfig
from_entries [] m = m
from_entries ((name, host) ∷ entries) m = from_entries entries (Dict.set m name host)

unfoldable pub create_host_dispatch_state : List SshWorkerHostConfig → HostDispatchRuntimeState
unfolding from_entries
create_host_dispatch_state worker_hosts = record {
  worker_hosts_by_name = from_entries (map (λ host. (host.name, host)) worker_hosts) [];
  host_order = map (λ host. host.name) worker_hosts;
  occupancy_by_host = [];
  preferred_host_by_issue_number = [];
}

unfoldable pub has_host_dispatch_capacity : HostDispatchRuntimeState → Bool
has_host_dispatch_capacity state = ltb 0 (length state.host_order)

unfoldable pub read_preferred_host : HostDispatchRuntimeState → ℕ → Option String
read_preferred_host state issue_number = Dict.get state.preferred_host_by_issue_number issue_number

-- `state.occupancyByHost.set(hostName, …)`.
unfoldable pub occupy :
    HostDispatchRuntimeState → String → ℕ → Option String → HostDispatchRuntimeState
occupy state host_name issue_number run_session_id = record state {
  occupancy_by_host =
      Dict.set state.occupancy_by_host host_name
        (record { issue_number = issue_number; run_session_id = run_session_id });
}

unfoldable pub is_occupied : HostDispatchRuntimeState → String → Bool
is_occupied state host_name = Dict.has state.occupancy_by_host host_name

-- The first test of `reserveHostForIssue`: the preferred host, if it is free and configured.
unfoldable pub free_preferred_host :
    HostDispatchRuntimeState → Option String → Option SshWorkerHostConfig
unfolding is_occupied
free_preferred_host state none = none
free_preferred_host state (some host_name) =
    if is_occupied state host_name then none else Dict.get state.worker_hosts_by_name host_name

-- Its loop: the first free configured host in order.
unfoldable pub first_free_host :
    HostDispatchRuntimeState → List String → Option (String × SshWorkerHostConfig)
unfolding is_occupied
first_free_host state [] = none
first_free_host state (host_name ∷ host_names) =
    let rest = first_free_host state host_names in
    if is_occupied state host_name
    then rest
    else elim (Dict.get state.worker_hosts_by_name host_name) [
      | none ↦ rest
      | some worker_host ↦ some (host_name, worker_host)
    ]

unfoldable pub reserve_in_order :
    HostDispatchRuntimeState
    → ℕ
    → Option String
    → Option (String × SshWorkerHostConfig)
    → HostReservationResult × HostDispatchRuntimeState
unfolding occupy is_occupied
reserve_in_order state issue_number preferred (some (host_name, worker_host)) =
    (selected worker_host false, occupy state host_name issue_number none)
reserve_in_order state issue_number preferred none =
    (blocked preferred (filter (is_occupied state) state.host_order), state)

unfoldable pub reserve_preferred :
    HostDispatchRuntimeState
    → ℕ
    → Option String
    → Option SshWorkerHostConfig
    → HostReservationResult × HostDispatchRuntimeState
unfolding occupy reserve_in_order first_free_host
reserve_preferred state issue_number (some host_name) (some worker_host) =
    (selected worker_host true, occupy state host_name issue_number none)
reserve_preferred state issue_number preferred _ =
    reserve_in_order state issue_number preferred (first_free_host state state.host_order)

unfoldable pub reserve_host_for_issue :
    HostDispatchRuntimeState → ℕ → HostReservationResult × HostDispatchRuntimeState
unfolding reserve_preferred free_preferred_host read_preferred_host
reserve_host_for_issue state issue_number =
    let preferred = read_preferred_host state issue_number in
    reserve_preferred state issue_number preferred (free_preferred_host state preferred)

-- `reservation?.issueNumber`
abbrev pub holder : Option HostReservation → Option ℕ
holder none = none
holder (some reservation) = some reservation.issue_number

unfoldable pub owner : HostDispatchRuntimeState → String → Option ℕ
owner state host_name = holder (Dict.get state.occupancy_by_host host_name)

unfoldable pub bind_host_reservation_to_run_session :
    HostDispatchRuntimeState → String → ℕ → String → HostDispatchRuntimeState
unfolding occupy owner
bind_host_reservation_to_run_session state host_name issue_number run_session_id =
    if owner state host_name == some issue_number
    then occupy state host_name issue_number (some run_session_id)
    else state

pub data ClaimHostForIssueResult : Type 0 where
  claimed : Bool → ClaimHostForIssueResult
  unknown_host : ClaimHostForIssueResult
  occupied : ℕ → ClaimHostForIssueResult

-- The part of `claimHostForIssue` below its first test, on the owner of the existing reservation.
unfoldable pub claim_known_host :
    HostDispatchRuntimeState
    → String
    → ℕ
    → Option String
    → Option ℕ
    → ClaimHostForIssueResult × HostDispatchRuntimeState
unfolding occupy
claim_known_host state host_name issue_number run_session_id none =
    (claimed false, occupy state host_name issue_number run_session_id)
claim_known_host state host_name issue_number run_session_id (some other) =
    if nat_beq other issue_number
    then (claimed true, occupy state host_name issue_number run_session_id)
    else (occupied other, state)

unfoldable pub claim_host_for_issue :
    HostDispatchRuntimeState
    → String
    → ℕ
    → Option String
    → ClaimHostForIssueResult × HostDispatchRuntimeState
unfolding claim_known_host owner
claim_host_for_issue state host_name issue_number run_session_id =
    if is_some (Dict.get state.worker_hosts_by_name host_name)
    then claim_known_host state host_name issue_number run_session_id (owner state host_name)
    else (unknown_host, state)

unfoldable pub note_preferred_host :
    HostDispatchRuntimeState → ℕ → String → HostDispatchRuntimeState
note_preferred_host state issue_number host_name =
    if is_some (Dict.get state.worker_hosts_by_name host_name)
    then record state {
      preferred_host_by_issue_number =
          Dict.set state.preferred_host_by_issue_number issue_number host_name;
    }
    else state

unfoldable pub clear_preferred_host : HostDispatchRuntimeState → ℕ → HostDispatchRuntimeState
clear_preferred_host state issue_number = record state {
  preferred_host_by_issue_number = Dict.delete state.preferred_host_by_issue_number issue_number;
}

-- The loop of `releaseHostForIssue`, over the entries that the map had at its start.
unfoldable pub release_loop :
    ℕ → List (String × HostReservation) → Dict String HostReservation → Dict String HostReservation
release_loop issue_number [] occupancy = occupancy
release_loop issue_number ((host_name, reservation) ∷ entries) occupancy =
    release_loop issue_number entries (
      if nat_beq reservation.issue_number issue_number
      then Dict.delete occupancy host_name
      else occupancy)

unfoldable pub release_host_for_issue : HostDispatchRuntimeState → ℕ → HostDispatchRuntimeState
unfolding release_loop
release_host_for_issue state issue_number = record state {
  occupancy_by_host = release_loop issue_number state.occupancy_by_host state.occupancy_by_host;
}

unfoldable pub host_snapshot : HostDispatchRuntimeState → String → HostDispatchHostSnapshot
unfolding owner
host_snapshot state host_name = record {
  name = host_name;
  occupied_by_issue_number = owner state host_name;
  preferred_issue_numbers =
      sort_by (λ left right. sub_ℕ left right)
        (map (λ p. p.0) (filter (λ p. p.1 == host_name) state.preferred_host_by_issue_number));
}

unfoldable pub list_host_dispatch_snapshots :
    HostDispatchRuntimeState → List HostDispatchHostSnapshot
unfolding host_snapshot
list_host_dispatch_snapshots state = map (host_snapshot state) state.host_order
