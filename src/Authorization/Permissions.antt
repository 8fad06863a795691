-- ===== src/Authorization/Permissions.antt =====
-- The permission registry (src/core/security/authorization/permission-registry.ts).
use cyber_hub_api.Prelude.{
  String, Bool, true, false, Option, List, [], ◌∷◌, ◌++◌, map, includes, str_eq, last_entry,
}
use cyber_hub_api.Authorization.Types.{
  Role, ScopeType, PermissionKey, role_learner, role_business, role_mentor, role_consultant,
  role_admin, own, org, asg, public, cond, auth_scope,
}

abbrev pub permission_keys : List String
permission_keys =
    "public.content.read" ∷ "auth.learner.register" ∷ "auth.business.register"
    ∷ "account.profile.read_update_own" ∷ "account.delete.request_own"
    ∷ "account.role.assign_privileged" ∷ "resource.read" ∷ "resource.bookmark.manage_own"
    ∷ "resource.progress.manage_own" ∷ "resource.manage" ∷ "course.read" ∷ "course.manage_approve"
    ∷ "career.read" ∷ "career.submit_own" ∷ "career.manage_moderate" ∷ "career_tools.read"
    ∷ "cv_review.use_own" ∷ "portfolio.manage_own" ∷ "portfolio.publish_control_own"
    ∷ "portfolio.public.read" ∷ "internship.program.read" ∷ "internship.program.manage"
    ∷ "internship.application.create_own" ∷ "internship.application.read_own"
    ∷ "internship.application.review" ∷ "internship.task.read_assigned"
    ∷ "internship.task.manage_assign" ∷ "submission.create_update_own"
    ∷ "submission.review_assigned" ∷ "completion.review_assigned" ∷ "certificate.verify_public"
    ∷ "certificate.read_own" ∷ "certificate.issue_manage" ∷ "certificate.revoke"
    ∷ "employer.opportunity.submit_own" ∷ "employer.talent.discover" ∷ "employer.portal.moderate"
    ∷ "employer.communication.participate" ∷ "consulting.request.create_own"
    ∷ "consulting.scope.confirm_own" ∷ "consulting.request.read_own"
    ∷ "consulting.request.review_assigned" ∷ "consulting.internal_note.manage"
    ∷ "assessment.read_client" ∷ "assessment.manage_assigned" ∷ "finding.read_client"
    ∷ "finding.manage_assigned" ∷ "security_score.read_client" ∷ "security_score.calculate_assigned"
    ∷ "report.read_client" ∷ "report.prepare_review_assigned" ∷ "report.release_client"
    ∷ "monitoring.read_choose_own" ∷ "monitoring.perform_assigned" ∷ "monitoring.admin_manage"
    ∷ "donation.create" ∷ "donation.reporting.read_manage" ∷ "analytics.read" ∷ "audit.read"
    ∷ "audit.event.write_system" ∷ []

unfoldable pub is_permission_key : String → Bool
is_permission_key value = includes value permission_keys

pub record PermissionDefinition : Type 0 where
  pub key : PermissionKey
  pub domain : String
  pub description : String
  pub allowed_roles : List Role
  pub scope : List ScopeType
  pub conditional : Bool
  pub system_only : Bool

abbrev pub define :
    PermissionKey
    → String
    → String
    → List Role
    → List ScopeType
    → Bool
    → Bool
    → PermissionDefinition
define key domain description allowed_roles scope conditional system_only = record {
  key = key;
  domain = domain;
  description = description;
  allowed_roles = allowed_roles;
  scope = scope;
  conditional = conditional;
  system_only = system_only;
}

abbrev every_role : List Role
every_role = role_learner ∷ role_business ∷ role_mentor ∷ role_consultant ∷ role_admin ∷ []

abbrev platform_definitions : List PermissionDefinition
platform_definitions =
    define "public.content.read" "public" "Public/legal/services content" every_role (public ∷ [])
      false false
    ∷ define "auth.learner.register" "auth" "Create learner account" (role_admin ∷ []) [] false
        false
    ∷ define "auth.business.register" "auth" "Create business/employer account"
        (role_business ∷ role_admin ∷ []) [] false false
    ∷ define "account.profile.read_update_own" "account" "Read/update own human profile" every_role
        (own ∷ org ∷ []) false false
    ∷ define "account.delete.request_own" "account" "Request account deletion" every_role
        (own ∷ cond ∷ []) true false
    ∷ define "account.role.assign_privileged" "account" "Assign/change privileged human role"
        (role_admin ∷ []) [] false false
    ∷ define "resource.read" "resource" "Browse/search/read resources" every_role (public ∷ [])
        false false
    ∷ define "resource.bookmark.manage_own" "resource" "Manage bookmarks/favourites"
        (role_learner ∷ []) (own ∷ []) false false
    ∷ define "resource.progress.manage_own" "resource" "Track learning progress" (role_learner ∷ [])
        (own ∷ cond ∷ []) true false
    ∷ define "resource.manage" "resource" "Create/update/delete/publish resources" (role_admin ∷ [])
        [] false false
    ∷ define "course.read" "course" "View course deals and approved external links" every_role
        (public ∷ []) false false
    ∷ define "course.manage_approve" "course" "Manage/approve course deals" (role_admin ∷ []) []
        false false
    ∷ define "career.read" "career" "Browse/filter/open career listings" every_role (public ∷ [])
        false false
    ∷ define "career.submit_own" "career" "Submit business career listing" (role_business ∷ [])
        (own ∷ []) false false
    ∷ define "career.manage_moderate" "career" "Manage/moderate career listings" (role_admin ∷ [])
        [] false false
    ∷ define "career_tools.read" "career_tools" "Access CV/interview guidance/bank" every_role
        (public ∷ []) false false
    ∷ define "cv_review.use_own" "cv_review" "Use CV review workflow"
        (role_learner ∷ role_admin ∷ []) (own ∷ cond ∷ []) true false
    ∷ define "portfolio.manage_own" "portfolio" "Create/update own portfolio evidence"
        (role_learner ∷ []) (own ∷ []) false false
    ∷ define "portfolio.publish_control_own" "portfolio" "Publish/unpublish selected portfolio info"
        (role_learner ∷ []) (own ∷ []) false false
    ∷ define "portfolio.public.read" "portfolio" "Read consented public portfolio/profile"
        every_role (public ∷ []) false false
    ∷ []

abbrev learning_definitions : List PermissionDefinition
learning_definitions =
    define "internship.program.read" "internship" "Browse published internship/programme catalogue"
      (role_learner ∷ role_business ∷ role_mentor ∷ role_admin ∷ []) (public ∷ []) false false
    ∷ define "internship.program.manage" "internship" "Manage internship programmes"
        (role_admin ∷ []) [] false false
    ∷ define "internship.application.create_own" "internship" "Submit application"
        (role_learner ∷ []) (own ∷ []) false false
    ∷ define "internship.application.read_own" "internship" "Read own application/progress"
        (role_learner ∷ role_admin ∷ []) (own ∷ []) false false
    ∷ define "internship.application.review" "internship" "Review/decide applications"
        (role_admin ∷ []) [] false false
    ∷ define "internship.task.read_assigned" "internship" "Read assigned tasks"
        (role_learner ∷ role_mentor ∷ role_admin ∷ []) (own ∷ asg ∷ []) false false
    ∷ define "internship.task.manage_assign" "internship" "Create/manage/assign internship tasks"
        (role_admin ∷ []) [] false false
    ∷ define "submission.create_update_own" "submission" "Submit/update own task evidence"
        (role_learner ∷ role_admin ∷ []) (own ∷ []) false false
    ∷ define "submission.review_assigned" "submission" "Review assigned learner evidence"
        (role_mentor ∷ role_admin ∷ []) (asg ∷ []) false false
    ∷ define "completion.review_assigned" "completion" "Review completion evidence"
        (role_mentor ∷ role_admin ∷ []) (asg ∷ []) false false
    ∷ define "certificate.verify_public" "certificate" "Verify certificate by public ID/QR"
        every_role (public ∷ []) false false
    ∷ define "certificate.read_own" "certificate" "View/download own certificate/PDF/status"
        (role_learner ∷ role_admin ∷ []) (own ∷ []) false false
    ∷ define "certificate.issue_manage" "certificate" "Manage eligibility/issue certificate"
        (role_admin ∷ []) [] false false
    ∷ define "certificate.revoke" "certificate" "Revoke/update certificate status" (role_admin ∷ [])
        [] false false
    ∷ define "employer.opportunity.submit_own" "employer"
        "Submit internship opportunity/student project" (role_business ∷ []) (own ∷ []) false false
    ∷ define "employer.talent.discover" "employer" "Discover emerging talent"
        (role_business ∷ role_admin ∷ []) (public ∷ []) false false
    ∷ define "employer.portal.moderate" "employer" "Moderate employer submissions/activity"
        (role_admin ∷ []) [] false false
    ∷ define "employer.communication.participate" "employer" "Use moderated communication workflow"
        (role_learner ∷ role_business ∷ role_admin ∷ []) (org ∷ cond ∷ []) true false
    ∷ define "consulting.request.create_own" "consulting"
        "Create consulting/security service request" (role_business ∷ []) (org ∷ []) false false
    ∷ define "consulting.scope.confirm_own" "consulting"
        "Confirm explicit testing scope/authorisation"
        (role_business ∷ role_consultant ∷ role_admin ∷ []) (org ∷ asg ∷ []) false false
    ∷ []

abbrev security_definitions : List PermissionDefinition
security_definitions =
    define "consulting.request.read_own" "consulting" "Read own request/status"
      (role_business ∷ role_admin ∷ []) (org ∷ []) false false
    ∷ define "consulting.request.review_assigned" "consulting" "Review/accept assigned request"
        (role_consultant ∷ role_admin ∷ []) (asg ∷ []) false false
    ∷ define "consulting.internal_note.manage" "consulting" "Manage internal assignment notes"
        (role_consultant ∷ role_admin ∷ []) (asg ∷ []) false false
    ∷ define "assessment.read_client" "assessment" "Read own assessment history/status"
        (role_business ∷ role_admin ∷ []) (org ∷ []) false false
    ∷ define "assessment.manage_assigned" "assessment"
        "Perform/record assigned authorised assessment" (role_consultant ∷ role_admin ∷ [])
        (asg ∷ auth_scope ∷ []) false false
    ∷ define "finding.read_client" "finding" "Read client-visible findings/risk counts"
        (role_business ∷ role_admin ∷ []) (org ∷ []) false false
    ∷ define "finding.manage_assigned" "finding" "Create/update/prioritise assigned findings"
        (role_consultant ∷ role_admin ∷ []) (asg ∷ auth_scope ∷ []) false false
    ∷ define "security_score.read_client" "security_score" "Read own overall/category scores"
        (role_business ∷ role_admin ∷ []) (org ∷ []) false false
    ∷ define "security_score.calculate_assigned" "security_score"
        "Calculate/update score from assigned assessment" (role_consultant ∷ role_admin ∷ [])
        (asg ∷ auth_scope ∷ []) false false
    ∷ define "report.read_client" "report" "Read released client security report"
        (role_business ∷ role_admin ∷ []) (org ∷ []) false false
    ∷ define "report.prepare_review_assigned" "report" "Prepare/review report draft"
        (role_consultant ∷ role_admin ∷ []) (asg ∷ []) false false
    ∷ define "report.release_client" "report" "Release approved report to client" (role_admin ∷ [])
        [] false false
    ∷ define "monitoring.read_choose_own" "monitoring" "View status/dates and choose monitoring"
        (role_business ∷ role_admin ∷ []) (org ∷ cond ∷ []) true false
    ∷ define "monitoring.perform_assigned" "monitoring" "Perform recurring monitoring/review"
        (role_consultant ∷ role_admin ∷ []) (asg ∷ cond ∷ []) true false
    ∷ define "monitoring.admin_manage" "monitoring" "Manage subscriptions/status/review date"
        (role_admin ∷ []) (cond ∷ []) true false
    ∷ define "donation.create" "donation" "Make donation via secure provider" every_role [] false
        false
    ∷ define "donation.reporting.read_manage" "donation" "View/administer donation reporting"
        (role_admin ∷ []) [] false false
    ∷ define "analytics.read" "analytics" "Access platform analytics" (role_admin ∷ []) [] false
        false
    ∷ define "audit.read" "audit" "Read security-relevant audit logs" (role_admin ∷ []) [] false
        false
    ∷ define "audit.event.write_system" "audit" "Create security-relevant audit event" [] [] false
        true
    ∷ []

-- `PERMISSION_REGISTRY[key]`, an object built from the definitions by their keys.
unfoldable pub permission_registry : PermissionKey → Option PermissionDefinition
permission_registry key = last_entry str_eq key (
    map (λ (d : PermissionDefinition). (d.key, d))
      (platform_definitions ++ learning_definitions ++ security_definitions))
