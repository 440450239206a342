-- ===== src/Observability/OperatorReadyPromotion/Store.antt =====
-- The issues on GitHub before, in the snapshots of, and after the loops that change labels.
use symphony_ts.Base.{
  ℕ, ◌≡◌, refl, ap, ◌∙◌, subst, String, Bool, true, false, List, [], ◌∷◌, map, any, Option, none,
  some, arith, if◌then◌else◌, ◌==◌, nat_eq, string_eq, Bool-cases, Option-cases, inl, inr,
  nat_beq_iff, ◌||◌,
}
use symphony_ts.Base.Dict
use symphony_ts.Base.Dict.{Dict}
use symphony_ts.Base.Dict.Laws.{get-set}
use symphony_ts.Base.Sets.{contains, contains-append, contains-set_of, set_of}
use symphony_ts.Domain.Issue.{RuntimeIssue}
use symphony_ts.Tracker.ReadyPromotion.{
  ReadyPromotionTrackerIssue, OperatorReleaseIssueReference, OperatorReleaseDependency,
  tracked_from,
}
use symphony_ts.Tracker.ReadyPromotion.Maps.{is_listed, is_downstream}
use symphony_ts.Tracker.ReadyPromotion.Eligible.{numbers}
use symphony_ts.Observability.OperatorReadyPromotion.{
  TrackerIssueSnapshot, to_tracker_issue_snapshot, available_tracker_issues, snapshots_from,
  downstream_numbers, label_loop, GitHubIssues,
}

abbrev pub option_map : {A B : Type 0} → (A → B) → Option A → Option B
option_map f none = none
option_map f (some a) = some (f a)

-- What GitHub documents of its issues: a read of an issue gives one with that number; new labels
-- replace those of the issue, as a set, and change its state or another issue as little as they make
-- an issue that is not there. No one else changes an issue meanwhile.
pub record IsDocumented (gh : GitHubIssues) : Type 0 where
  pub numbered :
      {store : gh.Server} {n : ℕ} {issue : RuntimeIssue}
      → gh.get_issue store n ≡ some issue
      → issue.number ≡ n
  pub absent :
      (store : gh.Server) (n : ℕ) (labels : List String)
      → gh.get_issue store n ≡ none
      → gh.get_issue (gh.update_issue store n labels) n ≡ none
  pub edited :
      (store : gh.Server) (n : ℕ) (labels : List String) {issue : RuntimeIssue}
      → gh.get_issue store n ≡ some issue
      → (after : RuntimeIssue) × ((gh.get_issue (gh.update_issue store n labels) n ≡ some after)
          × ((after.state ≡ issue.state)
              × ((label : String) → contains after.labels label ≡ contains labels label)))
  pub others :
      (store : gh.Server) (k n : ℕ) (labels : List String)
      → (k == n) ≡ false
      → gh.get_issue (gh.update_issue store k labels) n ≡ gh.get_issue store n

contains-listed :
    (references : List OperatorReleaseIssueReference) (n : ℕ)
    → contains (map (λ r. r.issue_number) references) n ≡ is_listed n references
unfolding contains any
contains-listed [] n = refl
contains-listed (r ∷ rest) n = ap (λ b. r.issue_number == n || b) (contains-listed rest n)

contains-downstream_numbers :
    (dependencies : List OperatorReleaseDependency) (n : ℕ)
    → contains (downstream_numbers dependencies) n ≡ is_downstream dependencies n
unfolding downstream_numbers any contains
contains-downstream_numbers [] n = refl
contains-downstream_numbers (d ∷ rest) n = ground (
  arith,
  contains-append (map (λ (r : OperatorReleaseIssueReference). r.issue_number) d.downstream)
      (downstream_numbers rest) n,
  contains-listed d.downstream n,
  contains-downstream_numbers rest n,
)

pub contains-asked :
    (dependencies : List OperatorReleaseDependency) (n : ℕ)
    → contains (set_of (downstream_numbers dependencies)) n ≡ is_downstream dependencies n
contains-asked dependencies n =
    contains-set_of (downstream_numbers dependencies) n ∙ contains-downstream_numbers dependencies n

present :
    {V : Type 0} (f : ℕ → Option V) (k n : ℕ) {o : Option V} → f k ≡ o → (k == n) ≡ true → f n ≡ o
present f k n {o} e q = subst (λ j. f j ≡ o) ((nat_beq_iff k n).0 q) e

module _ (gh : GitHubIssues) (documented : IsDocumented gh) (label : String)
    (store : gh.Server) where
  -- What a read of an issue adds to what was there before.
  abbrev read : ℕ → Option TrackerIssueSnapshot → Option TrackerIssueSnapshot
  read n before = elim (gh.get_issue store n) [
    | none ↦ before
    | some issue ↦ some (to_tracker_issue_snapshot label issue)
  ]

  pub get-available :
      (asked : List ℕ) (snapshots : Dict ℕ TrackerIssueSnapshot) (n : ℕ)
      → Dict.get (snapshots_from snapshots (available_tracker_issues gh label store asked)) n
        ≡ (if contains asked n then read n (Dict.get snapshots n) else Dict.get snapshots n)
  unfolding available_tracker_issues snapshots_from contains
  get-available [] snapshots n = refl
  get-available (k ∷ rest) snapshots n = elim (Option-cases (gh.get_issue store k)) [
    | inl e ↦ rw e (
        get-available rest snapshots n ∙ (elim (Bool-cases (k == n)) [
          | inl q ↦ let here = present (gh.get_issue store) k n e q in ground arith
          | inr q ↦ ground arith
        ]))
    | inr (issue, e) ↦
        let snapshot = to_tracker_issue_snapshot label issue in
        let named = documented.numbered e in
        let added = get-set snapshots issue.number snapshot n in
        rw e (
          get-available rest (Dict.set snapshots issue.number snapshot) n
          ∙ (elim (Bool-cases (k == n)) [
            | inl q ↦ let here = present (gh.get_issue store) k n e q in ground arith
            | inr q ↦ ground arith
          ]))
  ]

pub tracked-snapshots :
    (xs : List TrackerIssueSnapshot) (tracked : Dict ℕ ReadyPromotionTrackerIssue)
    (snapshots : Dict ℕ TrackerIssueSnapshot)
    → ((n : ℕ) → Dict.get tracked n ≡ option_map (λ s. s.tracker_issue) (Dict.get snapshots n))
    → (n : ℕ)
    → Dict.get (tracked_from tracked (map (λ s. s.tracker_issue) xs)) n
      ≡ option_map (λ s. s.tracker_issue) (Dict.get (snapshots_from snapshots xs) n)
unfolding tracked_from snapshots_from
tracked-snapshots [] tracked snapshots same n = same n
tracked-snapshots (x ∷ xs) tracked snapshots same n =
    tracked-snapshots xs (Dict.set tracked x.tracker_issue.issue_number x.tracker_issue)
      (Dict.set snapshots x.tracker_issue.issue_number x)
      (λ k.
        let before = same k in
        ground (
          arith,
          get-set tracked x.tracker_issue.issue_number x.tracker_issue k,
          get-set snapshots x.tracker_issue.issue_number x k,
        ))
      n

-- What the promotion sees of an issue: its state, and whether it has the ready label.
abbrev pub shown : String → Option RuntimeIssue → Option (String × Bool)
shown label none = none
shown label (some issue) = some (issue.state, contains issue.labels label)

abbrev pub relabelled : String → List String → Option (String × Bool) → Option (String × Bool)
relabelled label labels none = none
relabelled label labels (some (state, has)) = some (state, contains labels label)

-- What a change of labels makes of an issue that has a snapshot.
abbrev pub changed_by :
    String
    → (List String → List String)
    → Option TrackerIssueSnapshot
    → Option (String × Bool)
    → Option (String × Bool)
changed_by label change none seen = seen
changed_by label change (some snapshot) seen = relabelled label (change snapshot.labels) seen

abbrev pub see : (gh : GitHubIssues) → String → gh.Server → ℕ → Option (String × Bool)
see gh label store n = shown label (gh.get_issue store n)

module _ (gh : GitHubIssues) (documented : IsDocumented gh) (label : String) where
  see-update_issue :
      (store : gh.Server) (k : ℕ) (labels : List String) (n : ℕ)
      → see gh label (gh.update_issue store k labels) n
        ≡ (if k == n then relabelled label labels (see gh label store n) else see gh label store n)
  see-update_issue store k labels n = elim (Bool-cases (k == n)) [
    | inl q ↦
        let here = present (λ j. see gh label (gh.update_issue store k labels) j) k n refl q in
        let before = present (see gh label store) k n refl q in
        elim (Option-cases (gh.get_issue store k)) [
          | inl e ↦ let gone = documented.absent store k labels e in ground arith
          | inr (issue, e) ↦
              let (after, (now, (state, has))) = documented.edited store k labels e in
              let carries = has label in ground arith
        ]
    | inr q ↦ rw q (ap (shown label) (documented.others store k n labels q))
  ]

  module _ (update_failure : ℕ → Option String) (change : List String → List String)
      (snapshots : Dict ℕ TrackerIssueSnapshot) where
    pub see-label_loop :
        (references : List OperatorReleaseIssueReference) (store : gh.Server) (n : ℕ)
        → (label_loop gh update_failure change snapshots references store).error ≡ none
        → see gh label (label_loop gh update_failure change snapshots references store).store n ≡ (
            if contains (numbers references) n
            then changed_by label change (Dict.get snapshots n) (see gh label store n)
            else see gh label store n)
    unfolding label_loop contains
    see-label_loop [] store n fine = refl
    see-label_loop (r ∷ rest) store n fine =
        elim (Option-cases (Dict.get snapshots r.issue_number)) [
          | inl e ↦
              let ih = see-label_loop rest store n in
              elim (Bool-cases (r.issue_number == n)) [
                | inl q ↦
                    let here = present (Dict.get snapshots) r.issue_number n e q in
                    ground (arith, ih)
                | inr q ↦ ground (arith, ih)
              ]
          | inr (snapshot, e) ↦
              let ih =
                see-label_loop rest (gh.update_issue store r.issue_number (change snapshot.labels))
                  n in
              let updated = see-update_issue store r.issue_number (change snapshot.labels) n in
              elim (Bool-cases (r.issue_number == n)) [
                | inl q ↦
                    let here = present (Dict.get snapshots) r.issue_number n e q in
                    elim (Option-cases (gh.get_issue store n)) [
                      | inl o ↦ ground (arith, ih)
                      | inr (issue, o) ↦ ground (arith, ih)
                    ]
                | inr q ↦ ground (arith, ih)
              ]
        ]
