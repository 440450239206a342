-- ===== src/Domain/PlanReview.antt =====
-- src/domain/plan-review.ts: the signals of a plan review, and the protocol that names their markers.
use symphony_ts.Base.{String, List, [], ◌∷◌}
use symphony_ts.Base.Text.{cat, join}

-- The signals but `plan-ready`.
pub data PlanReviewDecisionSignal : Type 0 where
  changes_requested approved waived : PlanReviewDecisionSignal

pub data PlanReviewSignal : Type 0 where
  plan_ready : PlanReviewSignal
  decided : PlanReviewDecisionSignal → PlanReviewSignal

pub record PlanReviewMetadataLabels : Type 0 where
  pub plan_path : String
  pub branch_name : String
  pub plan_url : String
  pub branch_url : String
  pub compare_url : String

pub record PlanReviewProtocol : Type 0 where
  pub plan_ready_signal : String
  pub legacy_plan_ready_signals : List String
  pub approved_signal : String
  pub changes_requested_signal : String
  pub waived_signal : String
  pub metadata_labels : PlanReviewMetadataLabels
  pub review_reply_guidance : String
  pub reply_template_block : String

abbrev pub default_plan_review_metadata_labels : PlanReviewMetadataLabels
default_plan_review_metadata_labels = record {
  plan_path = "Plan path";
  branch_name = "Branch";
  plan_url = "Plan URL";
  branch_url = "Branch URL";
  compare_url = "Compare URL";
}

-- The three signals of the protocol are the arguments: approved, changes requested, waived.
unfoldable pub build_default_plan_review_reply_guidance : String → String → String → String
build_default_plan_review_reply_guidance approved_signal changes_requested_signal waived_signal =
    cat (
      "Review replies must start with one of these exact first-line markers: `" ∷ approved_signal
      ∷ "`, `" ∷ changes_requested_signal ∷ "`, or `" ∷ waived_signal ∷ "`." ∷ [])

unfoldable pub build_default_plan_review_reply_template_block : String → String → String → String
build_default_plan_review_reply_template_block approved_signal changes_requested_signal
      waived_signal =
    join "\n" (
      "````md" ∷ "```md" ∷ approved_signal ∷ "" ∷ "Summary" ∷ "" ∷ "- Approved to implement."
      ∷ "```" ∷ "" ∷ "```md" ∷ changes_requested_signal ∷ "" ∷ "Summary" ∷ ""
      ∷ "- One-sentence decision." ∷ "" ∷ "What is good" ∷ "" ∷ "- ..." ∷ "" ∷ "Required changes"
      ∷ "" ∷ "- ..." ∷ "" ∷ "Architecture / spec concerns" ∷ "" ∷ "- ..." ∷ ""
      ∷ "Slice / PR size concerns" ∷ "" ∷ "- ..." ∷ "" ∷ "Approval condition" ∷ ""
      ∷ "- Approve after ..." ∷ "```" ∷ "" ∷ "```md" ∷ waived_signal ∷ "" ∷ "Summary" ∷ ""
      ∷ "- Plan review is waived; proceed to implementation." ∷ "```" ∷ "````" ∷ [])

unfoldable pub create_default_plan_review_protocol : PlanReviewProtocol
unfolding build_default_plan_review_reply_guidance build_default_plan_review_reply_template_block
create_default_plan_review_protocol =
    let approved_signal : String = "Plan review: approved" in
    let changes_requested_signal : String = "Plan review: changes-requested" in
    let waived_signal : String = "Plan review: waived" in
    record {
      plan_ready_signal = "Plan status: plan-ready";
      legacy_plan_ready_signals = "Plan ready for review." ∷ [];
      approved_signal = approved_signal;
      changes_requested_signal = changes_requested_signal;
      waived_signal = waived_signal;
      metadata_labels = default_plan_review_metadata_labels;
      review_reply_guidance =
          build_default_plan_review_reply_guidance approved_signal changes_requested_signal
            waived_signal;
      reply_template_block =
          build_default_plan_review_reply_template_block approved_signal changes_requested_signal
            waived_signal;
    }
