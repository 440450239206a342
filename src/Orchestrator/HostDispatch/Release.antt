-- ===== src/Orchestrator/HostDispatch/Release.antt =====
-- What a release does to the owners of the hosts.
use symphony_ts.Base.{
  ℕ, String, ◌≡◌, refl, ◌∙◌, not, [], ◌∷◌, ◌++◌, Option, none, some, arith, filter, if◌then◌else◌,
  nat_eq, string_eq, option_eq, nat_beq, ◌==◌, Bool-cases, inl, inr, ap,
}
use text.Mathlib.TextEquality.{eq_iff}
use mathlib.Core.List.{append_assoc}
use symphony_ts.Base.Dict
use symphony_ts.Base.Dict.{Dict}
use symphony_ts.Base.Dict.Laws.{IsDistinct, delete_middle, IsDistinct-middle}
use symphony_ts.Orchestrator.HostDispatch.{
  HostDispatchRuntimeState, HostReservation, owner, release_loop, release_host_for_issue,
}

release_loop_lem :
    (n : ℕ) (entries kept : Dict String HostReservation)
    → IsDistinct (kept ++ entries)
    → release_loop n entries (kept ++ entries)
      ≡ kept ++ filter (λ p. not (nat_beq p.1.issue_number n)) entries
unfolding release_loop filter
release_loop_lem n [] kept d = refl
release_loop_lem n ((h, r) ∷ entries) kept d = elim (Bool-cases (nat_beq r.issue_number n)) [
  | inl mine ↦
      rw (mine, delete_middle kept entries h r d)
        (release_loop_lem n entries kept (IsDistinct-middle kept entries h r d))
  | inr other ↦
      let same : (kept ++ (h, r) ∷ []) ++ entries ≡ kept ++ (h, r) ∷ entries =
        append_assoc kept ((h, r) ∷ []) entries in
      rw (other, ← same)
        (rw (release_loop_lem n entries (kept ++ (h, r) ∷ []) (rw same d))
          (append_assoc kept ((h, r) ∷ []) _))
]

abbrev without : Option HostReservation → ℕ → Option HostReservation
without none n = none
without (some r) n = if nat_beq r.issue_number n then none else some r

get-filter :
    (n : ℕ) (m : Dict String HostReservation) (h : String)
    → IsDistinct m
    → Dict.get (filter (λ p. not (nat_beq p.1.issue_number n)) m) h ≡ without (Dict.get m h) n
unfolding Dict.get filter
get-filter n [] h d = refl
get-filter n ((k, r) ∷ m) h (absent, d) = ground (arith, get-filter n m h d, eq_iff k h)

get-release :
    (s : HostDispatchRuntimeState) (n : ℕ) (h : String)
    → IsDistinct s.occupancy_by_host
    → Dict.get (release_host_for_issue s n).occupancy_by_host h
      ≡ without (Dict.get s.occupancy_by_host h) n
unfolding release_host_for_issue
get-release s n h d =
    ap (λ m. Dict.get m h) (release_loop_lem n s.occupancy_by_host [] d)
    ∙ get-filter n s.occupancy_by_host h d

-- A release frees every host of the issue and no other, where each host has one reservation.
pub owner-release :
    (s : HostDispatchRuntimeState) (n : ℕ) (h : String)
    → IsDistinct s.occupancy_by_host
    → owner (release_host_for_issue s n) h ≡ (if owner s h == some n then none else owner s h)
unfolding owner
owner-release s n h d = ground (arith, get-release s n h d)
