-- ===== src/Orchestrator/HostDispatch/Laws.antt =====
-- What each operation on the worker hosts does, on every branch.
use symphony_ts.Base.{
  ℕ, String, ◌≡◌, refl, ◌∙◌, Bool, true, false, List, [], ◌∷◌, Option, none, some, arith, filter,
  is_some, if◌then◌else◌, nat_eq, string_eq, option_eq, nat_beq, ◌==◌, All, Bool-cases,
  Option-cases, inl, inr, ◌⊎◌, ap, option_beq_iff, ◌≢◌,
}
use text.Mathlib.TextEquality.{eq_iff}
use symphony_ts.Base.Dict
use symphony_ts.Base.Dict.{Dict}
use symphony_ts.Base.Dict.Laws.{get-set}
use symphony_ts.Domain.Workflow.{SshWorkerHostConfig}
use symphony_ts.Orchestrator.HostDispatch.{
  HostDispatchRuntimeState, HostReservationResult, selected, blocked, occupy, is_occupied, owner,
  read_preferred_host, free_preferred_host, first_free_host, reserve_in_order, reserve_preferred,
  reserve_host_for_issue, bind_host_reservation_to_run_session, claim_host_for_issue, claimed,
  unknown_host, occupied,
}

-- A host is occupied exactly when it has an owner.
pub is_occupied-owner :
    (s : HostDispatchRuntimeState) (h : String) → is_occupied s h ≡ is_some (owner s h)
unfolding is_occupied owner Dict.has
is_occupied-owner s h = ground arith

pub owner-occupy :
    (s : HostDispatchRuntimeState) (h : String) (n : ℕ) (r : Option String) (k : String)
    → owner (occupy s h n r) k ≡ (if h == k then some n else owner s k)
unfolding owner occupy
owner-occupy s h n r k =
    ground
      (arith, get-set s.occupancy_by_host h (record { issue_number = n; run_session_id = r }) k)

-- What a successful reservation took: a host that was free and is configured.
pub record Took (s : HostDispatchRuntimeState) (n : ℕ) (w : SshWorkerHostConfig)
    (t : HostDispatchRuntimeState) : Type 0 where
  pub host : String
  pub configured : Dict.get s.worker_hosts_by_name host ≡ some w
  pub free : owner s host ≡ none
  pub after : t ≡ occupy s host n none

first_free_host_sound :
    (s : HostDispatchRuntimeState) (hs : List String) (h : String) (w : SshWorkerHostConfig)
    → first_free_host s hs ≡ some (h, w)
    → (Dict.get s.worker_hosts_by_name h ≡ some w) × (is_occupied s h ≡ false)
unfolding first_free_host
first_free_host_sound s [] h w e = cc
first_free_host_sound s (k ∷ ks) h w e = elim (Bool-cases (is_occupied s k)) [
  | inl taken ↦ first_free_host_sound s ks h w (rw taken at e)
  | inr free ↦ elim (Option-cases (Dict.get s.worker_hosts_by_name k)) [
    | inl missing ↦ first_free_host_sound s ks h w (ground arith)
    | inr (v, found) ↦ ground arith
  ]
]

free-owner :
    (s : HostDispatchRuntimeState) (h : String) → is_occupied s h ≡ false → owner s h ≡ none
free-owner s h e = ground (arith, is_occupied-owner s h)

Took-of_free :
    (s : HostDispatchRuntimeState) (n : ℕ) {w v : SshWorkerHostConfig} (h : String)
    → Dict.get s.worker_hosts_by_name h ≡ some v
    → is_occupied s h ≡ false
    → v ≡ w
    → Took s n w (occupy s h n none)
Took-of_free s n h c f e = record {
  host = h;
  configured = c ∙ ap some e;
  free = free-owner s h f;
  after = refl;
}

in_order-Took :
    (s : HostDispatchRuntimeState) (n : ℕ) (w : SshWorkerHostConfig) (b : Bool) (p : Option String)
    (o : Option (String × SshWorkerHostConfig))
    → first_free_host s s.host_order ≡ o
    → (reserve_in_order s n p o).0 ≡ selected w b
    → Took s n w (reserve_in_order s n p o).1
unfolding reserve_in_order
in_order-Took s n w b p none f e = cc
in_order-Took s n w b p (some (h, v)) f e =
    let (c, free) = first_free_host_sound s s.host_order h v f in Took-of_free s n h c free (cc)

preferred-Took :
    (s : HostDispatchRuntimeState) (n : ℕ) (w : SshWorkerHostConfig) (b : Bool) (p : Option String)
    (o : Option SshWorkerHostConfig)
    → free_preferred_host s p ≡ o
    → (reserve_preferred s n p o).0 ≡ selected w b
    → Took s n w (reserve_preferred s n p o).1
unfolding reserve_preferred free_preferred_host
preferred-Took s n w b (some h) (some v) f e =
    let free : is_occupied s h ≡ false = ground arith in
    let found : Dict.get s.worker_hosts_by_name h ≡ some v = ground arith in
    Took-of_free s n h found free (cc)
preferred-Took s n w b p o f e = in_order-Took s n w b p (first_free_host s s.host_order) refl e

-- A reservation that selects a worker takes one host that is configured under the host's name with
-- that worker, and that no issue occupied, for the issue, with no run session; nothing else changes.
pub reserve-Took :
    (s : HostDispatchRuntimeState) (n : ℕ) (w : SshWorkerHostConfig) (preferred : Bool)
    → (reserve_host_for_issue s n).0 ≡ selected w preferred
    → Took s n w (reserve_host_for_issue s n).1
unfolding reserve_host_for_issue
reserve-Took s n w preferred e =
    preferred-Took s n w preferred (read_preferred_host s n)
      (free_preferred_host s (read_preferred_host s n)) refl e

abbrev pub IsConfigured : HostDispatchRuntimeState → String → Type 0
IsConfigured s h = is_some (Dict.get s.worker_hosts_by_name h) ≡ true

none_free :
    (s : HostDispatchRuntimeState) (hs : List String)
    → All (IsConfigured s) hs
    → first_free_host s hs ≡ none
    → filter (is_occupied s) hs ≡ hs
unfolding first_free_host filter
none_free s [] c e = refl
none_free s (h ∷ hs) (c, cs) e = elim (Bool-cases (is_occupied s h)) [
  | inl taken ↦ rw taken (ap (λ r. h ∷ r) (none_free s hs cs (rw taken at e)))
  | inr free ↦ elim (Option-cases (Dict.get s.worker_hosts_by_name h)) [
    | inl missing ↦ absurd (ground arith)
    | inr (w, found) ↦ absurd (ground arith)
  ]
]

in_order-blocked :
    (s : HostDispatchRuntimeState) (n : ℕ) (p q : Option String) (hs : List String)
    (o : Option (String × SshWorkerHostConfig))
    → All (IsConfigured s) s.host_order
    → first_free_host s s.host_order ≡ o
    → (reserve_in_order s n p o).0 ≡ blocked q hs
    → (q ≡ p)
      × (hs ≡ s.host_order)
      × (filter (is_occupied s) s.host_order ≡ s.host_order)
      × ((reserve_in_order s n p o).1 ≡ s)
unfolding reserve_in_order
in_order-blocked s n p q hs none c f e =
    let all_taken = none_free s s.host_order c f in (cc, cc all_taken, all_taken, refl)
in_order-blocked s n p q hs (some (h, v)) c f e = cc

preferred-blocked :
    (s : HostDispatchRuntimeState) (n : ℕ) (p q : Option String) (hs : List String)
    (o : Option SshWorkerHostConfig)
    → All (IsConfigured s) s.host_order
    → (reserve_preferred s n p o).0 ≡ blocked q hs
    → (q ≡ p)
      × (hs ≡ s.host_order)
      × (filter (is_occupied s) s.host_order ≡ s.host_order)
      × ((reserve_preferred s n p o).1 ≡ s)
unfolding reserve_preferred
preferred-blocked s n (some h) q hs (some v) c e = cc
preferred-blocked s n p q hs o c e =
    in_order-blocked s n p q hs (first_free_host s s.host_order) c refl e

-- Where every host of the order is configured, a reservation is blocked only when every host of the
-- order is occupied: it reports all of them as occupied, with the preferred host of the issue, and
-- changes nothing.
pub reserve_blocked :
    (s : HostDispatchRuntimeState) (n : ℕ) (q : Option String) (hs : List String)
    → All (IsConfigured s) s.host_order
    → (reserve_host_for_issue s n).0 ≡ blocked q hs
    → (q ≡ read_preferred_host s n)
      × (hs ≡ s.host_order)
      × (filter (is_occupied s) s.host_order ≡ s.host_order)
      × ((reserve_host_for_issue s n).1 ≡ s)
unfolding reserve_host_for_issue
reserve_blocked s n q hs c e =
    preferred-blocked s n (read_preferred_host s n) q hs
      (free_preferred_host s (read_preferred_host s n)) c e

in_order_unchanged :
    (s : HostDispatchRuntimeState) (n : ℕ) (p q : Option String) (hs : List String)
    (f : Option (String × SshWorkerHostConfig))
    → (reserve_in_order s n p f).0 ≡ blocked q hs
    → (reserve_in_order s n p f).1 ≡ s
unfolding reserve_in_order
in_order_unchanged s n p q hs none b = refl
in_order_unchanged s n p q hs (some (h, v)) b = cc

preferred_unchanged :
    (s : HostDispatchRuntimeState) (n : ℕ) (p q : Option String) (hs : List String)
    (o : Option SshWorkerHostConfig)
    → (reserve_preferred s n p o).0 ≡ blocked q hs
    → (reserve_preferred s n p o).1 ≡ s
unfolding reserve_preferred
preferred_unchanged s n (some h) q hs (some v) b = cc
preferred_unchanged s n p q hs o b =
    in_order_unchanged s n p q hs (first_free_host s s.host_order) b

reserve_unchanged :
    (s : HostDispatchRuntimeState) (n : ℕ) (q : Option String) (hs : List String)
    → (reserve_host_for_issue s n).0 ≡ blocked q hs
    → (reserve_host_for_issue s n).1 ≡ s
unfolding reserve_host_for_issue
reserve_unchanged s n q hs e =
    preferred_unchanged s n (read_preferred_host s n) q hs
      (free_preferred_host s (read_preferred_host s n)) e

-- A reservation takes a free host, or changes nothing.
pub reserve_cases :
    (s : HostDispatchRuntimeState) (n : ℕ)
    → ((w : SshWorkerHostConfig) × Took s n w (reserve_host_for_issue s n).1)
      ⊎ ((reserve_host_for_issue s n).1 ≡ s)
reserve_cases s n = go (reserve_host_for_issue s n).0 refl
  where
    go :
        (r : HostReservationResult)
        → (reserve_host_for_issue s n).0 ≡ r
        → ((w : SshWorkerHostConfig) × Took s n w (reserve_host_for_issue s n).1)
          ⊎ ((reserve_host_for_issue s n).1 ≡ s)
    go (selected w b) e = inl (w, reserve-Took s n w b e)
    go (blocked q hs) e = inr (reserve_unchanged s n q hs e)

-- The preferred host is taken whenever it is configured and free.
pub reserve_preferred_free :
    (s : HostDispatchRuntimeState) (n : ℕ) (h : String) (w : SshWorkerHostConfig)
    → read_preferred_host s n ≡ some h
    → Dict.get s.worker_hosts_by_name h ≡ some w
    → is_occupied s h ≡ false
    → reserve_host_for_issue s n ≡ (selected w true, occupy s h n none)
unfolding reserve_host_for_issue free_preferred_host reserve_preferred
reserve_preferred_free s n h w p c f = rw (p, f, c)

pub owner-bind :
    (s : HostDispatchRuntimeState) (h : String) (n : ℕ) (r k : String)
    → owner (bind_host_reservation_to_run_session s h n r) k ≡ owner s k
unfolding bind_host_reservation_to_run_session
owner-bind s h n r k =
    ground (arith, owner-occupy s h n (some r) k, eq_iff h k, option_beq_iff (owner s h) (some n))

-- A claim gives the host to the issue exactly when the host is configured and no other issue has
-- it; in every other case nothing changes, and the error names the issue that has it.
pub claim_cases :
    (s : HostDispatchRuntimeState) (h : String) (n : ℕ) (r : Option String)
    → (IsConfigured s h
        × ((owner s h ≡ none) ⊎ (owner s h ≡ some n))
        × (claim_host_for_issue s h n r ≡ (claimed (is_some (owner s h)), occupy s h n r)))
      ⊎ ((is_some (Dict.get s.worker_hosts_by_name h) ≡ false)
          × (claim_host_for_issue s h n r ≡ (unknown_host, s)))
      ⊎ ((k : ℕ) × IsConfigured s h
          × (k ≢ n)
          × (owner s h ≡ some k)
          × (claim_host_for_issue s h n r ≡ (occupied k, s)))
unfolding claim_host_for_issue
claim_cases s h n r = elim (Bool-cases (is_some (Dict.get s.worker_hosts_by_name h))) [
  | inr unknown ↦ inr (inl (unknown, rw unknown))
  | inl known ↦ elim (Option-cases (owner s h)) [
    | inl free ↦ inl (known, inl free, rw (known, free))
    | inr (k, taken) ↦ elim (Bool-cases (nat_beq k n)) [
      | inl mine ↦
          let same : k ≡ n = ground arith in
          inl (known, inr (taken ∙ ap some same), rw (known, taken, mine))
      | inr other ↦ inr (inr (k, known, ground arith, taken, rw (known, taken, other)))
    ]
  ]
]
