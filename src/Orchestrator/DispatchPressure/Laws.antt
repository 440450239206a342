-- ===== src/Orchestrator/DispatchPressure/Laws.antt =====
-- When dispatch is paused, over every history of signals.
use symphony_ts.Base.{
  ℕ, ◌≡◌, refl, ap, ◌∙◌, String, Bool, true, false, ◌||◌, ◌&&◌, List, [], ◌∷◌, Option, none, some,
  arith, any, is_some, beq_refl, nat_beq_iff, subst, lt→ltb, nat_eq, ◌==◌, or_else, if◌then◌else◌,
  Bool-cases, Option-cases, inl, inr, ◌↔◌, ◌<◌, sym,
}
use symphony_ts.Base.Dict
use symphony_ts.Base.Dict.{Dict}
use symphony_ts.Base.Dict.Laws.{
  Entries, Entries-set, Entries-delete, IsDistinct, set-IsDistinct, delete-IsDistinct, get-set,
  get-delete,
}
use symphony_ts.Domain.Retry.{TransientFailureSignal, DispatchPressureStateSnapshot}
use symphony_ts.Orchestrator.DispatchPressure.{
  DispatchPressureRuntimeState, create_dispatch_pressure_state, resumes_after,
  get_active_dispatch_pressure, select_loop, select_current_dispatch_pressure,
  activate_dispatch_pressure, next_pressure, clear_dispatch_pressure, active_part, contribute,
  contribute_or_throw, pressure_at,
}

pub data Op : Type 0 where
  activate : ℕ → TransientFailureSignal → ℕ → Op
  clear : Option ℕ → Op

module _ (date_parse : String → Option ℕ) (to_iso : ℕ → Option String) where
  unfoldable pub apply : DispatchPressureRuntimeState → Op → DispatchPressureRuntimeState
  apply state (activate n signal now) =
      (activate_dispatch_pressure date_parse to_iso state n signal now).1
  apply state (clear n) = clear_dispatch_pressure date_parse to_iso state n

  unfoldable pub run : DispatchPressureRuntimeState → List Op → DispatchPressureRuntimeState
  run state [] = state
  run state (op ∷ ops) = run (apply state op) ops

  -- The time at which a contributor resumes is known.
  abbrev IsDated : ℕ → DispatchPressureStateSnapshot → Type 0
  IsDated n pressure = (t : ℕ) × (date_parse pressure.resume_at ≡ some t)

  abbrev is_paused : Option DispatchPressureStateSnapshot → ℕ → Bool
  is_paused current now = is_some (active_part date_parse to_iso current now)

  loop-is_paused :
      (now : ℕ) (m : Dict ℕ DispatchPressureStateSnapshot) (current : DispatchPressureStateSnapshot)
      → Entries IsDated m
      → IsDated 0 current
      → is_paused (select_loop date_parse to_iso (some current) (Dict.values m)) now ≡ (
          resumes_after date_parse to_iso now current
          || any (λ p. resumes_after date_parse to_iso now p.1) m)
  unfolding select_loop Dict.values any resumes_after active_part
  loop-is_paused now [] current h (t, e) = ground arith
  loop-is_paused now ((n, p) ∷ m) current ((u, f), hs) (t, e) =
      let taken = loop-is_paused now m p hs (u, f) in
      let kept = loop-is_paused now m current hs (t, e) in rw (e, f) ground (arith, taken, kept)

  select-is_paused :
      (now : ℕ) (m : Dict ℕ DispatchPressureStateSnapshot)
      → Entries IsDated m
      → is_paused (select_current_dispatch_pressure date_parse to_iso m) now
        ≡ any (λ p. resumes_after date_parse to_iso now p.1) m
  unfolding select_current_dispatch_pressure select_loop any Dict.values active_part
  select-is_paused now [] h = refl
  select-is_paused now ((n, p) ∷ m) (d, h) = loop-is_paused now m p h d

  -- A text that `to_iso` gives is read back.
  pub record ReadsBack : Type 0 where
    pub parsed : {t : ℕ} {text : String} → to_iso t ≡ some text → date_parse text ≡ some t

  resume_of : Option DispatchPressureStateSnapshot → Option ℕ
  resume_of none = none
  resume_of (some pressure) = date_parse pressure.resume_at

  -- The time until which issue `n` is to pause dispatch after a history, by the history alone: that
  -- of its last signal whose time `Date` can print, unless it was cleared since; `before` is the time
  -- from before the history.
  abbrev pub pauses_until : ℕ → Option ℕ → List Op → Option ℕ
  pauses_until n before [] = before
  pauses_until n before (activate k signal now ∷ ops) =
      let t = or_else signal.resume_at now in
      pauses_until n (if k == n && is_some (to_iso t) then some t else before) ops
  pauses_until n before (clear none ∷ ops) = pauses_until n none ops
  pauses_until n before (clear (some k) ∷ ops) =
      pauses_until n (if k == n then none else before) ops

  -- What the state is after a history, where `until` gives the times of the issues.
  record IsSelected (state : DispatchPressureRuntimeState) (until : ℕ → Option ℕ) : Type 0 where
    distinct : IsDistinct state.contributors
    dated : Entries IsDated state.contributors
    selected : state.current ≡ select_current_dispatch_pressure date_parse to_iso state.contributors
    known : (n : ℕ) → resume_of (Dict.get state.contributors n) ≡ until n

  contribute-IsSelected :
      (state : DispatchPressureRuntimeState) (until : ℕ → Option ℕ) (k t : ℕ)
      (next : DispatchPressureStateSnapshot)
      → date_parse next.resume_at ≡ some t
      → IsSelected state until
      → IsSelected
          (contribute date_parse to_iso state k next).1
          (λ n. if k == n then some t else until n)
  unfolding contribute resume_of
  contribute-IsSelected state until k t next parsed h = record {
    distinct = set-IsDistinct state.contributors k next h.distinct;
    dated = Entries-set IsDated state.contributors k next h.dated (t, parsed);
    selected = refl;
    known = λ n.
        rw (get-set state.contributors k next n)
          (elim (Bool-cases (k == n)) [ inl e ↦ rw e parsed | inr e ↦ rw e (h.known n) ]);
  }

  -- The times after one operation.
  abbrev after_op : Op → (ℕ → Option ℕ) → ℕ → Option ℕ
  after_op op until n = pauses_until n (until n) (op ∷ [])

  same-IsSelected :
      (state : DispatchPressureRuntimeState) (until until' : ℕ → Option ℕ)
      → ((n : ℕ) → until n ≡ until' n)
      → IsSelected state until
      → IsSelected state until'
  same-IsSelected state until until' same h = record {
    distinct = h.distinct;
    dated = h.dated;
    selected = h.selected;
    known = λ n. h.known n ∙ same n;
  }

  activate-IsSelected :
      (reads : ReadsBack) (state : DispatchPressureRuntimeState) (until : ℕ → Option ℕ) (k t : ℕ)
      (signal : TransientFailureSignal) (text : Option String)
      → to_iso t ≡ text
      → IsSelected state until
      → IsSelected
          (contribute_or_throw date_parse to_iso state k
            (pressure_at date_parse to_iso signal text)).1
          (λ n. if k == n && is_some text then some t else until n)
  activate-IsSelected reads state until k t signal none e h =
      same-IsSelected state until _ (λ n. ground arith) h
  activate-IsSelected reads state until k t signal (some text) e h =
      same-IsSelected _ _ _ (λ n. ground arith)
        (contribute-IsSelected state until k t _ (reads.parsed e) h)

  apply-IsSelected :
      (reads : ReadsBack) (state : DispatchPressureRuntimeState) (until : ℕ → Option ℕ) (op : Op)
      → IsSelected state until
      → IsSelected (apply state op) (after_op op until)
  unfolding apply activate_dispatch_pressure clear_dispatch_pressure next_pressure resume_of
      Dict.get select_current_dispatch_pressure select_loop Dict.values
  apply-IsSelected reads state until (activate k signal now) h =
      activate-IsSelected reads state until k (or_else signal.resume_at now) signal _ refl h
  apply-IsSelected reads state until (clear none) h = record {
    distinct = tt;
    dated = tt;
    selected = refl;
    known = λ n. refl;
  }
  apply-IsSelected reads state until (clear (some k)) h = record {
    distinct = delete-IsDistinct state.contributors k h.distinct;
    dated = Entries-delete IsDated state.contributors k h.dated;
    selected = refl;
    known = λ n.
        rw (get-delete state.contributors k n)
          (elim (Bool-cases (k == n)) [ inl e ↦ rw e refl | inr e ↦ rw e (h.known n) ]);
  }

  run-IsSelected :
      (reads : ReadsBack) (ops : List Op) (state : DispatchPressureRuntimeState)
      (until : ℕ → Option ℕ)
      → IsSelected state until
      → IsSelected (run state ops) (λ n. pauses_until n (until n) ops)
  unfolding run
  run-IsSelected reads [] state until h = h
  run-IsSelected reads (activate k signal now ∷ ops) state until h =
      run-IsSelected reads ops (apply state (activate k signal now))
        (after_op (activate k signal now) until)
        (apply-IsSelected reads state until (activate k signal now) h)
  run-IsSelected reads (clear none ∷ ops) state until h =
      run-IsSelected reads ops (apply state (clear none)) (after_op (clear none) until)
        (apply-IsSelected reads state until (clear none) h)
  run-IsSelected reads (clear (some k) ∷ ops) state until h =
      run-IsSelected reads ops (apply state (clear (some k))) (after_op (clear (some k)) until)
        (apply-IsSelected reads state until (clear (some k)) h)

  -- An issue whose contribution resumes after a time.
  abbrev Contributes : Dict ℕ DispatchPressureStateSnapshot → ℕ → Type 0
  Contributes m now =
      (n : ℕ) × ((p : DispatchPressureStateSnapshot) × ((Dict.get m n ≡ some p)
          × (resumes_after date_parse to_iso now p ≡ true)))

  any-get :
      (m : Dict ℕ DispatchPressureStateSnapshot) (now n : ℕ) (p : DispatchPressureStateSnapshot)
      → Dict.get m n ≡ some p
      → resumes_after date_parse to_iso now p ≡ true
      → any (λ q. resumes_after date_parse to_iso now q.1) m ≡ true
  unfolding Dict.get any
  any-get [] now n p e h = cc
  any-get ((k, q) ∷ m) now n p e h = let rest = any-get m now n p in ground arith

  absent_other :
      (m : Dict ℕ DispatchPressureStateSnapshot) (k n : ℕ) {p : DispatchPressureStateSnapshot}
      → Dict.get m k ≡ none
      → Dict.get m n ≡ some p
      → (k == n) ≡ false
  absent_other m k n absent found = elim (Bool-cases (k == n)) [
    | inl q ↦
        let here = subst (λ j. Dict.get m j ≡ none) ((nat_beq_iff k n).0 q) absent in ground arith
    | inr q ↦ q
  ]

  any-Contributes :
      (m : Dict ℕ DispatchPressureStateSnapshot) (now : ℕ)
      → IsDistinct m
      → any (λ q. resumes_after date_parse to_iso now q.1) m ≡ true
      → Contributes m now
  unfolding Dict.get any
  any-Contributes [] now d h = cc
  any-Contributes ((k, q) ∷ m) now (absent, d) h =
      elim (Bool-cases (resumes_after date_parse to_iso now q)) [
        | inl e ↦ (k, (q, (ground (arith, beq_refl k), e)))
        | inr e ↦
            let (n, (p, (found, later))) = any-Contributes m now d (rw e at h) in
            (n, (p, (rw (absent_other m k n absent found) found, later)))
      ]

  until_later :
      (p : DispatchPressureStateSnapshot) (now : ℕ)
      → resumes_after date_parse to_iso now p ≡ true
      → (t : ℕ) × ((date_parse p.resume_at ≡ some t) × (now < t))
  unfolding resumes_after
  until_later p now later = elim (Option-cases (date_parse p.resume_at)) [
    | inl e ↦ ground arith
    | inr (t, e) ↦ (t, (e, ground arith))
  ]

  later-until :
      (p : DispatchPressureStateSnapshot) (now t : ℕ)
      → date_parse p.resume_at ≡ some t
      → now < t
      → resumes_after date_parse to_iso now p ≡ true
  unfolding resumes_after
  later-until p now t e lt = rw e (lt→ltb now t lt)

  selected_iff :
      (state : DispatchPressureRuntimeState) (until : ℕ → Option ℕ) (now : ℕ)
      → IsSelected state until
      → (is_some (get_active_dispatch_pressure date_parse to_iso state now) ≡ true)
        ↔ ((n : ℕ) × ((t : ℕ) × ((until n ≡ some t) × (now < t))))
  unfolding get_active_dispatch_pressure resume_of
  selected_iff state until now h =
      let paused =
        ap (λ c. is_paused c now) h.selected ∙ select-is_paused now state.contributors h.dated in
      (
        λ is.
            let (n, (p, (found, later))) =
              any-Contributes state.contributors now h.distinct (sym paused ∙ is) in
            let (t, (parsed, lt)) = until_later p now later in
            let known = h.known n in (n, (t, (sym known ∙ ap resume_of found ∙ parsed, lt))),
        λ (n, (t, (pauses, lt))).
            let known = h.known n in
            elim (Option-cases (Dict.get state.contributors n)) [
              | inl e ↦ ground arith
              | inr (p, e) ↦
                  let parsed : date_parse p.resume_at ≡ some t =
                    sym (ap resume_of e) ∙ known ∙ pauses in
                  paused ∙ any-get state.contributors now n p e (later-until p now t parsed lt)
            ],
      )

  -- After any history of signals and clearings, dispatch is paused at a time exactly when some issue
  -- is to pause it until later than that time: by its last signal, if that was not cleared since. A
  -- signal whose time `Date` cannot print throws and changes nothing. `Date.parse` reads back what
  -- `toISOString` prints.
  pub paused_iff :
      (reads : ReadsBack) (ops : List Op) (now : ℕ)
      → (is_some (
            get_active_dispatch_pressure date_parse to_iso
              (run create_dispatch_pressure_state ops)
              now)
          ≡ true)
        ↔ ((n : ℕ) × ((t : ℕ) × ((pauses_until n none ops ≡ some t) × (now < t))))
  unfolding resume_of Dict.get
  paused_iff reads ops now = selected_iff (run create_dispatch_pressure_state ops) _ now (
      run-IsSelected reads ops create_dispatch_pressure_state (λ n. none)
        (unfold create_dispatch_pressure_state select_current_dispatch_pressure select_loop
            Dict.values in
          record { distinct = tt; dated = tt; selected = refl; known = λ n. refl }))
