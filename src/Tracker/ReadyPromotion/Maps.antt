-- ===== src/Tracker/ReadyPromotion/Maps.antt =====
-- What the loop over the dependencies leaves in its maps, in terms of the dependencies themselves.
use symphony_ts.Base.{
  ℕ, ◌≡◌, refl, Bool, not, ◌&&◌, ◌||◌, List, [], ◌∷◌, ◌++◌, all, any, arith, or_else, is_nonempty,
  is_nonempty-empty, ◌==◌, nat_eq, Bool-cases, inl, inr, nat_beq_iff,
}
use symphony_ts.Base.Dict
use symphony_ts.Base.Dict.{Dict}
use symphony_ts.Base.Dict.Laws.{get-set}
use symphony_ts.Tracker.ReadyPromotion.{
  OperatorReleaseIssueReference, OperatorReleaseDependency, ReadyPromotionIssueFact,
  ReadyPromotionTrackerIssue, References, note_downstream, note_all, note_unresolved,
  note_dependency, collect,
}

-- A dependency has the issue among its downstream ones; some dependency has.
abbrev pub is_listed : ℕ → List OperatorReleaseIssueReference → Bool
is_listed n references = any (λ reference. reference.issue_number == n) references

abbrev pub is_downstream : List OperatorReleaseDependency → ℕ → Bool
is_downstream dependencies n = any (λ dependency. is_listed n dependency.downstream) dependencies

abbrev pub prerequisites : References → ℕ → List OperatorReleaseIssueReference
prerequisites references n = or_else (Dict.get references.prerequisites_by_downstream n) []

all-append : {A : Type 0} (p : A → Bool) (xs ys : List A) → all p (xs ++ ys) ≡ all p xs && all p ys
unfolding all
all-append p [] ys = refl
all-append p (x ∷ xs) ys = ground (arith, all-append p xs ys)

module _ (facts : Dict ℕ ReadyPromotionIssueFact) (tracked : Dict ℕ ReadyPromotionTrackerIssue)
    (n : ℕ) where
  has-note_downstream :
      (prerequisite : OperatorReleaseIssueReference) (references : References)
      (downstream : OperatorReleaseIssueReference)
      → Dict.has
          (note_downstream facts tracked prerequisite references downstream).downstream_references
          n
        ≡ downstream.issue_number == n || Dict.has references.downstream_references n
  unfolding note_downstream Dict.has
  has-note_downstream prerequisite references downstream =
      ground (arith, get-set references.downstream_references downstream.issue_number downstream n)

  has-note_all :
      (prerequisite : OperatorReleaseIssueReference) (references : References)
      (downstream : List OperatorReleaseIssueReference)
      → Dict.has (note_all facts tracked prerequisite references downstream).downstream_references n
        ≡ Dict.has references.downstream_references n || is_listed n downstream
  unfolding note_all any
  has-note_all prerequisite references [] = ground arith
  has-note_all prerequisite references (d ∷ rest) = ground (
    arith,
    has-note_all prerequisite (note_downstream facts tracked prerequisite references d) rest,
    has-note_downstream prerequisite references d,
  )

  has-note_dependency :
      (references : References) (dependency : OperatorReleaseDependency)
      → Dict.has (note_dependency facts tracked references dependency).downstream_references n
        ≡ Dict.has references.downstream_references n || is_listed n dependency.downstream
  unfolding note_dependency note_unresolved any
  has-note_dependency references dependency =
      elim (Bool-cases (is_nonempty dependency.downstream)) [
        | inl e ↦ rw e (has-note_all dependency.prerequisite _ dependency.downstream)
        | inr e ↦ rw (e, is_nonempty-empty dependency.downstream e) (ground arith)
      ]

  pub has-collect :
      (references : References) (dependencies : List OperatorReleaseDependency)
      → Dict.has (collect facts tracked references dependencies).downstream_references n
        ≡ Dict.has references.downstream_references n || is_downstream dependencies n
  unfolding collect any
  has-collect references [] = ground arith
  has-collect references (d ∷ rest) = ground (
    arith,
    has-collect (note_dependency facts tracked references d) rest,
    has-note_dependency references d,
  )

  module _ (p : OperatorReleaseIssueReference → Bool) where
    all-note_downstream :
        (prerequisite : OperatorReleaseIssueReference) (references : References)
        (downstream : OperatorReleaseIssueReference)
        → all p (prerequisites (note_downstream facts tracked prerequisite references downstream) n)
          ≡ all p (prerequisites references n)
            && (not (downstream.issue_number == n) || p prerequisite)
    unfolding note_downstream all
    all-note_downstream prerequisite references downstream = ground (
      arith,
      get-set references.prerequisites_by_downstream downstream.issue_number
          (prerequisites references downstream.issue_number ++ prerequisite ∷ []) n,
      all-append p (prerequisites references n) (prerequisite ∷ []),
      nat_beq_iff downstream.issue_number n,
    )

    all-note_all :
        (prerequisite : OperatorReleaseIssueReference) (references : References)
        (downstream : List OperatorReleaseIssueReference)
        → all p (prerequisites (note_all facts tracked prerequisite references downstream) n)
          ≡ all p (prerequisites references n) && (not (is_listed n downstream) || p prerequisite)
    unfolding note_all any
    all-note_all prerequisite references [] = ground arith
    all-note_all prerequisite references (d ∷ rest) = ground (
      arith,
      all-note_all prerequisite (note_downstream facts tracked prerequisite references d) rest,
      all-note_downstream prerequisite references d,
    )

    all-note_dependency :
        (references : References) (dependency : OperatorReleaseDependency)
        → all p (prerequisites (note_dependency facts tracked references dependency) n)
          ≡ all p (prerequisites references n)
            && (not (is_listed n dependency.downstream) || p dependency.prerequisite)
    unfolding note_dependency note_unresolved any
    all-note_dependency references dependency =
        elim (Bool-cases (is_nonempty dependency.downstream)) [
          | inl e ↦ rw e (all-note_all dependency.prerequisite _ dependency.downstream)
          | inr e ↦ rw (e, is_nonempty-empty dependency.downstream e) (ground arith)
        ]

    pub all-collect :
        (references : References) (dependencies : List OperatorReleaseDependency)
        → all p (prerequisites (collect facts tracked references dependencies) n)
          ≡ all p (prerequisites references n)
            && all (λ d. not (is_listed n d.downstream) || p d.prerequisite) dependencies
    unfolding collect all
    all-collect references [] = ground arith
    all-collect references (d ∷ rest) = ground (
      arith,
      all-collect (note_dependency facts tracked references d) rest,
      all-note_dependency references d,
    )
