-- ===== src/Authorization/Disclosure.antt =====
-- What a refusal may tell the caller (src/core/security/authorization/disclosure-policy.ts).
use cyber_hub_api.Prelude.{
  Bool, Option, none, some, List, [], ◌∷◌, str_eq, includes, last_entry, if◌then◌else◌,
}
use cyber_hub_api.Authorization.Types.{
  PermissionKey, ApiId, permission_protected, public_route, authenticated_only, direct_permission,
  caller_domain_permission,
}
use cyber_hub_api.Authorization.Operations.Row.{ApiOperationAuthorization}

pub data DisclosurePolicy : Type 0 where
  disclose_forbidden conceal_existence not_applicable : DisclosurePolicy

abbrev pub conceal_existence_keys : List PermissionKey
conceal_existence_keys =
    "assessment.manage_assigned" ∷ "assessment.read_client" ∷ "consulting.internal_note.manage"
    ∷ "consulting.request.read_own" ∷ "consulting.request.review_assigned"
    ∷ "consulting.scope.confirm_own" ∷ "finding.manage_assigned"
    ∷ "security_score.calculate_assigned" ∷ "report.prepare_review_assigned" ∷ "report.read_client"
    ∷ "report.release_client" ∷ "monitoring.admin_manage" ∷ "monitoring.read_choose_own"
    ∷ "career.submit_own" ∷ "employer.opportunity.submit_own" ∷ "certificate.read_own"
    ∷ "internship.application.read_own" ∷ "internship.task.read_assigned" ∷ "portfolio.manage_own"
    ∷ "portfolio.publish_control_own" ∷ "resource.progress.manage_own"
    ∷ "submission.create_update_own" ∷ "completion.review_assigned" ∷ "submission.review_assigned"
    ∷ "certificate.issue_manage" ∷ "audit.read" ∷ "donation.reporting.read_manage" ∷ []

abbrev pub disclose_forbidden_keys : List PermissionKey
disclose_forbidden_keys =
    "account.role.assign_privileged" ∷ "career.manage_moderate" ∷ "course.manage_approve"
    ∷ "employer.portal.moderate" ∷ "internship.application.review" ∷ "internship.program.manage"
    ∷ "certificate.revoke" ∷ "resource.manage" ∷ "resource.bookmark.manage_own" ∷ []

abbrev pub not_applicable_keys : List PermissionKey
not_applicable_keys =
    "career.read" ∷ "course.read" ∷ "portfolio.public.read" ∷ "public.content.read"
    ∷ "resource.read" ∷ "internship.application.create_own" ∷ []

abbrev pub operation_disclosure_overrides : List (ApiId × DisclosurePolicy)
operation_disclosure_overrides =
    ("API-ENR-004", conceal_existence)
    ∷ ("API-ENR-005", conceal_existence)
    ∷ ("API-TSK-001", disclose_forbidden)
    ∷ ("API-TSK-002", disclose_forbidden)
    ∷ ("API-TSK-003", disclose_forbidden)
    ∷ ("API-TSK-004", disclose_forbidden)
    ∷ []

-- The classification of the key, with the default of an unclassified one.
abbrev pub key_policy : PermissionKey → DisclosurePolicy
key_policy permission_key =
    if includes permission_key conceal_existence_keys
    then conceal_existence
    else if includes permission_key disclose_forbidden_keys
    then disclose_forbidden
    else if includes permission_key not_applicable_keys
    then not_applicable
    else disclose_forbidden

abbrev pub override_of : Option ApiId → Option DisclosurePolicy
override_of none = none
override_of (some api_id) =
    if str_eq api_id "" then none else last_entry str_eq api_id operation_disclosure_overrides

unfoldable pub resolve_disclosure_policy : PermissionKey → Option ApiId → Bool → DisclosurePolicy
resolve_disclosure_policy permission_key api_id resource_context_required =
    if resource_context_required
    then elim (override_of api_id) [ some policy ↦ policy | none ↦ key_policy permission_key ]
    else not_applicable

abbrev policy_of_direct : ApiOperationAuthorization → DisclosurePolicy
policy_of_direct op = elim op.permission_key [
  | none ↦ not_applicable
  | some key ↦
      if str_eq key ""
      then not_applicable
      else resolve_disclosure_policy key (some op.api_id) op.resource_context_required
]

unfoldable pub resolve_disclosure_policy_for_operation :
    ApiOperationAuthorization → DisclosurePolicy
resolve_disclosure_policy_for_operation op = elim op.classification [
  | public_route ↦ not_applicable
  | authenticated_only ↦ not_applicable
  | permission_protected ↦ elim op.authorization_mode [
    | caller_domain_permission ↦ not_applicable
    | direct_permission ↦ policy_of_direct op
  ]
]
