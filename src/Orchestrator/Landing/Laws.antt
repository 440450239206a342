-- ===== src/Orchestrator/Landing/Laws.antt =====
-- A head is landed at most once until it changes or the issue is cleared.
use symphony_ts.Base.{
  ℕ, ◌≡◌, refl, ap, ◌∙◌, is_some, Bool-cases, inl, inr, String, true, false, not, List, [], ◌∷◌,
  Option, none, some, arith, if◌then◌else◌, nat_eq, string_eq, option_eq, option_beq_iff, nat_beq,
}
use symphony_ts.Base.Dict
use symphony_ts.Base.Dict.Laws.{get-set, get-delete}
use symphony_ts.Orchestrator.Landing.{
  LandingRuntimeState, create_landing_runtime_state, clear_landing_runtime_state,
  should_execute_landing, note_landing_attempt, is_other_head,
}

pub data Op : Type 0 where
  attempt : ℕ → Option String → Op
  clear : ℕ → Op

-- An attempt as the coordinator makes it: nothing happens where it should not be executed.
unfoldable pub apply : LandingRuntimeState → Op → LandingRuntimeState
apply state (attempt n head) =
    if should_execute_landing state n head then note_landing_attempt state n head else state
apply state (clear n) = clear_landing_runtime_state state n

unfoldable pub run : LandingRuntimeState → List Op → LandingRuntimeState
run state [] = state
run state (op ∷ ops) = run (apply state op) ops

-- The head of the last attempt on the issue since it was cleared, read off the history alone.
unfoldable pub last_head : ℕ → Option (Option String) → List Op → Option (Option String)
last_head n head [] = head
last_head n head (attempt k h ∷ ops) = last_head n (if nat_beq k n then some h else head) ops
last_head n head (clear k ∷ ops) = last_head n (if nat_beq k n then none else head) ops

attempted_before :
    (attempted : Option (Option String)) (h : Option String)
    → (if not (is_some attempted) then true else is_other_head attempted h) ≡ false
    → attempted ≡ some h
attempted_before none h e = cc
attempted_before (some a) h e = ground (arith, option_beq_iff a h)

get-apply_attempt :
    (state : LandingRuntimeState) (k n : ℕ) (h : Option String)
    → Dict.get (apply state (attempt k h)).attempted_head_sha_by_issue_number n
      ≡ (if nat_beq k n then some h else Dict.get state.attempted_head_sha_by_issue_number n)
unfolding apply note_landing_attempt
get-apply_attempt state k n h = elim (Bool-cases (should_execute_landing state k h)) [
  | inl should ↦ rw should (get-set state.attempted_head_sha_by_issue_number k h n)
  | inr done ↦
      let same =
        attempted_before (Dict.get state.attempted_head_sha_by_issue_number k) h
          (unfold should_execute_landing Dict.has in done) in
      rw done (ground (arith, same))
]

get-run :
    (state : LandingRuntimeState) (n : ℕ) (ops : List Op)
    → Dict.get (run state ops).attempted_head_sha_by_issue_number n
      ≡ last_head n (Dict.get state.attempted_head_sha_by_issue_number n) ops
unfolding run last_head
get-run state n [] = refl
get-run state n (attempt k h ∷ ops) =
    get-run (apply state (attempt k h)) n ops
    ∙ ap (λ head. last_head n head ops) (get-apply_attempt state k n h)
get-run state n (clear k ∷ ops) =
    get-run (apply state (clear k)) n ops
    ∙ ap (λ head. last_head n head ops)
        (unfold apply clear_landing_runtime_state in
          get-delete state.attempted_head_sha_by_issue_number k n)

collapse :
    (attempted : Option (Option String)) (head : Option String)
    → (if not (is_some attempted) then true else is_other_head attempted head)
      ≡ is_other_head attempted head
collapse none head = refl
collapse (some a) head = refl

-- After any history of attempts, made only where they should be, and of clearings, a landing should
-- be executed exactly when the last attempt on the issue since it was cleared, if there was one, was
-- for another head.
pub should_execute-run :
    (n : ℕ) (head : Option String) (ops : List Op)
    → should_execute_landing (run create_landing_runtime_state ops) n head
      ≡ is_other_head (last_head n none ops) head
unfolding should_execute_landing Dict.has
should_execute-run n head ops =
    collapse (Dict.get (run create_landing_runtime_state ops).attempted_head_sha_by_issue_number n)
      head
    ∙ ap (λ last. is_other_head last head)
        (get-run create_landing_runtime_state n ops
          ∙ ap (λ first. last_head n first ops)
              (unfold create_landing_runtime_state Dict.get in refl))
