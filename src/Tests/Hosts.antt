-- ===== src/Tests/Hosts.antt =====
-- Two hosts, of which issue 3 prefers and holds the first one.
use symphony_ts.Base.{
  arith, ◌≡◌, refl, true, false, List, [], ◌∷◌, ◌++◌, All, none, some, filter, if◌then◌else◌, ◌==◌,
  nat_eq, string_eq, option_eq,
}
use symphony_ts.Base.Dict
use symphony_ts.Base.Dict.Laws.{IsDistinct}
use symphony_ts.Orchestrator.HostDispatch.{
  HostDispatchRuntimeState, create_host_dispatch_state, reserve_host_for_issue,
  release_host_for_issue, owner, selected, blocked, read_preferred_host, is_occupied,
}
use symphony_ts.Orchestrator.HostDispatch.Release.{owner-release}
use symphony_ts.Orchestrator.HostDispatch.Laws.{Took, IsConfigured, reserve-Took, reserve_blocked}
use symphony_ts.Orchestrator.HostDispatch.History
use symphony_ts.Orchestrator.HostDispatch.History.{
  Op, reserve, claim, note_preferred, release, run, IsNoRelease, run_holds, reserve-release,
}
use symphony_ts.Tests.Data.{host_of}

abbrev held : HostDispatchRuntimeState
held = record {
  worker_hosts_by_name = ("a", host_of "a") ∷ ("b", host_of "b") ∷ [];
  host_order = "a" ∷ "b" ∷ [];
  occupancy_by_host = ("a", record { issue_number = 3; run_session_id = none }) ∷ [];
  preferred_host_by_issue_number = (3, "a") ∷ [];
}

abbrev full : HostDispatchRuntimeState
full = record held {
  occupancy_by_host =
      ("a", record { issue_number = 3; run_session_id = none })
      ∷ ("b", record { issue_number = 4; run_session_id = none })
      ∷ [];
}

held-IsDistinct : IsDistinct held.occupancy_by_host
unfolding Dict.get
held-IsDistinct = (refl, tt)

abbrev first_ops : List Op
first_ops = reserve 3 ∷ []

abbrev later_ops : List Op
later_ops = reserve 4 ∷ claim "a" 5 none ∷ release 4 ∷ []

holds_first : owner (run (create_host_dispatch_state (host_of "a" ∷ [])) first_ops) "a" ≡ some 3
unfolding run create_host_dispatch_state owner reserve_host_for_issue Dict.get History.apply
    Dict.has Dict.set
holds_first = refl

run_holds_example :
    owner (run (create_host_dispatch_state (host_of "a" ∷ [])) (first_ops ++ later_ops)) "a"
    ≡ some 3
run_holds_example =
    run_holds (host_of "a" ∷ []) first_ops later_ops "a" 3 holds_first
      (tt, (tt, ((λ e. omega (arith, e)), tt)))

takes_second : (reserve_host_for_issue held 4).0 ≡ selected (host_of "b") false
unfolding reserve_host_for_issue Dict.get Dict.has
takes_second = refl

reserve-Took_example : Took held 4 (host_of "b") (reserve_host_for_issue held 4).1
reserve-Took_example = reserve-Took held 4 (host_of "b") false takes_second

All-IsConfigured : All (IsConfigured full) full.host_order
unfolding Dict.get
All-IsConfigured = (refl, (refl, tt))

both_taken : (reserve_host_for_issue full 5).0 ≡ blocked none ("a" ∷ "b" ∷ [])
unfolding reserve_host_for_issue filter Dict.get Dict.has
both_taken = refl

reserve_blocked_example :
    (none ≡ read_preferred_host full 5)
    × (("a" ∷ "b" ∷ []) ≡ full.host_order)
    × (filter (is_occupied full) full.host_order ≡ full.host_order)
    × ((reserve_host_for_issue full 5).1 ≡ full)
reserve_blocked_example = reserve_blocked full 5 none ("a" ∷ "b" ∷ []) All-IsConfigured both_taken

owner-release_example :
    owner (release_host_for_issue held 3) "a"
    ≡ (if owner held "a" == some 3 then none else owner held "a")
owner-release_example = owner-release held 3 "a" held-IsDistinct

preferred_first : read_preferred_host held 3 ≡ some "a"
unfolding read_preferred_host Dict.get
preferred_first = refl

first_configured : Dict.get held.worker_hosts_by_name "a" ≡ some (host_of "a")
unfolding Dict.get
first_configured = refl

first_owned : owner held "a" ≡ some 3
unfolding owner Dict.get
first_owned = refl

reserve-release_example :
    ((reserve_host_for_issue (release_host_for_issue held 3) 3).0 ≡ selected (host_of "a") true)
    × (owner (reserve_host_for_issue (release_host_for_issue held 3) 3).1 "a" ≡ some 3)
reserve-release_example =
    reserve-release held 3 "a" (host_of "a") held-IsDistinct preferred_first first_configured
      first_owned
