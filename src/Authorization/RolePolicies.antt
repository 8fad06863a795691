-- ===== src/Authorization/RolePolicies.antt =====
-- The scopes that each role has on each permission (src/core/security/authorization/role-policy.ts).
use cyber_hub_api.Prelude.{Option, none, some, List, [], ◌∷◌, ◌++◌, String, str_eq, last_entry}
use cyber_hub_api.Authorization.Types.{
  Role, same_role, ScopeType, PermissionKey, role_learner, role_business, role_mentor,
  role_consultant, role_admin, own, org, asg, public, cond, auth_scope,
}

pub record RolePolicy : Type 0 where
  pub scopes : List ScopeType
  pub condition_ids : Option (List String)

abbrev pub PermissionRolePolicies : Type 0
PermissionRolePolicies = List (Role × RolePolicy)

abbrev scoped : List ScopeType → RolePolicy
scoped scopes = record { scopes = scopes; condition_ids = none }

abbrev conditioned : List ScopeType → List String → RolePolicy
conditioned scopes ids = record { scopes = scopes; condition_ids = some ids }

abbrev platform_policies : List (PermissionKey × PermissionRolePolicies)
platform_policies =
    (
      "public.content.read",
      (role_learner, scoped [])
          ∷ (role_business, scoped [])
          ∷ (role_mentor, scoped [])
          ∷ (role_consultant, scoped [])
          ∷ (role_admin, scoped [])
          ∷ [],
    )
    ∷ ("auth.learner.register", (role_admin, scoped []) ∷ [])
    ∷ ("auth.business.register", (role_business, scoped []) ∷ (role_admin, scoped []) ∷ [])
    ∷ (
      "account.profile.read_update_own",
      (role_learner, scoped (own ∷ []))
          ∷ (role_business, scoped (org ∷ []))
          ∷ (role_mentor, scoped (own ∷ []))
          ∷ (role_consultant, scoped (own ∷ []))
          ∷ (role_admin, scoped [])
          ∷ [],
    )
    ∷ (
      "account.delete.request_own",
      (role_learner, scoped (own ∷ []))
          ∷ (role_business, conditioned (cond ∷ []) ("ACCOUNT_DELETION_NON_LEARNER_POLICY" ∷ []))
          ∷ (role_mentor, conditioned (cond ∷ []) ("ACCOUNT_DELETION_NON_LEARNER_POLICY" ∷ []))
          ∷ (role_consultant, conditioned (cond ∷ []) ("ACCOUNT_DELETION_NON_LEARNER_POLICY" ∷ []))
          ∷ (role_admin, scoped [])
          ∷ [],
    )
    ∷ ("account.role.assign_privileged", (role_admin, scoped []) ∷ [])
    ∷ (
      "resource.read",
      (role_learner, scoped [])
          ∷ (role_business, scoped (public ∷ []))
          ∷ (role_mentor, scoped (public ∷ []))
          ∷ (role_consultant, scoped (public ∷ []))
          ∷ (role_admin, scoped [])
          ∷ [],
    )
    ∷ ("resource.bookmark.manage_own", (role_learner, scoped (own ∷ [])) ∷ [])
    ∷ (
      "resource.progress.manage_own",
      (role_learner, conditioned (own ∷ cond ∷ []) ("LEARNING_PROGRESS_FEATURE_ENABLED" ∷ [])) ∷ [],
    )
    ∷ ("resource.manage", (role_admin, scoped []) ∷ [])
    ∷ (
      "course.read",
      (role_learner, scoped [])
          ∷ (role_business, scoped (public ∷ []))
          ∷ (role_mentor, scoped (public ∷ []))
          ∷ (role_consultant, scoped (public ∷ []))
          ∷ (role_admin, scoped [])
          ∷ [],
    )
    ∷ ("course.manage_approve", (role_admin, scoped []) ∷ [])
    ∷ (
      "career.read",
      (role_learner, scoped [])
          ∷ (role_business, scoped [])
          ∷ (role_mentor, scoped (public ∷ []))
          ∷ (role_consultant, scoped (public ∷ []))
          ∷ (role_admin, scoped [])
          ∷ [],
    )
    ∷ ("career.submit_own", (role_business, scoped (own ∷ [])) ∷ [])
    ∷ ("career.manage_moderate", (role_admin, scoped []) ∷ [])
    ∷ (
      "career_tools.read",
      (role_learner, scoped [])
          ∷ (role_business, scoped (public ∷ []))
          ∷ (role_mentor, scoped (public ∷ []))
          ∷ (role_consultant, scoped (public ∷ []))
          ∷ (role_admin, scoped [])
          ∷ [],
    )
    ∷ (
      "cv_review.use_own",
      (role_learner, scoped (own ∷ []))
          ∷ (role_admin, conditioned (cond ∷ []) ("CV_REVIEW_WORKFLOW_DEFINED" ∷ []))
          ∷ [],
    )
    ∷ ("portfolio.manage_own", (role_learner, scoped (own ∷ [])) ∷ [])
    ∷ ("portfolio.publish_control_own", (role_learner, scoped (own ∷ [])) ∷ [])
    ∷ (
      "portfolio.public.read",
      (role_learner, scoped (public ∷ []))
          ∷ (role_business, scoped (public ∷ []))
          ∷ (role_mentor, scoped (public ∷ []))
          ∷ (role_consultant, scoped (public ∷ []))
          ∷ (role_admin, scoped (public ∷ []))
          ∷ [],
    )
    ∷ []

abbrev learning_policies : List (PermissionKey × PermissionRolePolicies)
learning_policies =
    (
      "internship.program.read",
      (role_learner, scoped [])
          ∷ (role_business, scoped [])
          ∷ (role_mentor, scoped [])
          ∷ (role_admin, scoped [])
          ∷ [],
    )
    ∷ ("internship.program.manage", (role_admin, scoped []) ∷ [])
    ∷ ("internship.application.create_own", (role_learner, scoped (own ∷ [])) ∷ [])
    ∷ (
      "internship.application.read_own",
      (role_learner, scoped (own ∷ [])) ∷ (role_admin, scoped []) ∷ [],
    )
    ∷ ("internship.application.review", (role_admin, scoped []) ∷ [])
    ∷ (
      "internship.task.read_assigned",
      (role_learner, scoped (own ∷ []))
          ∷ (role_mentor, scoped (asg ∷ []))
          ∷ (role_admin, scoped [])
          ∷ [],
    )
    ∷ ("internship.task.manage_assign", (role_admin, scoped []) ∷ [])
    ∷ (
      "submission.create_update_own",
      (role_learner, scoped (own ∷ [])) ∷ (role_admin, scoped []) ∷ [],
    )
    ∷ (
      "submission.review_assigned",
      (role_mentor, scoped (asg ∷ [])) ∷ (role_admin, scoped []) ∷ [],
    )
    ∷ (
      "completion.review_assigned",
      (role_mentor, scoped (asg ∷ [])) ∷ (role_admin, scoped []) ∷ [],
    )
    ∷ (
      "certificate.verify_public",
      (role_learner, scoped (public ∷ []))
          ∷ (role_business, scoped (public ∷ []))
          ∷ (role_mentor, scoped (public ∷ []))
          ∷ (role_consultant, scoped (public ∷ []))
          ∷ (role_admin, scoped [])
          ∷ [],
    )
    ∷ ("certificate.read_own", (role_learner, scoped (own ∷ [])) ∷ (role_admin, scoped []) ∷ [])
    ∷ ("certificate.issue_manage", (role_admin, scoped []) ∷ [])
    ∷ ("certificate.revoke", (role_admin, scoped []) ∷ [])
    ∷ ("employer.opportunity.submit_own", (role_business, scoped (own ∷ [])) ∷ [])
    ∷ (
      "employer.talent.discover",
      (role_business, scoped (public ∷ [])) ∷ (role_admin, scoped (public ∷ [])) ∷ [],
    )
    ∷ ("employer.portal.moderate", (role_admin, scoped []) ∷ [])
    ∷ (
      "employer.communication.participate",
      (role_learner, conditioned (cond ∷ []) ("EMPLOYER_COMMUNICATION_PARTICIPANT" ∷ []))
          ∷ (
            role_business,
            conditioned (org ∷ cond ∷ []) ("EMPLOYER_COMMUNICATION_PARTICIPANT" ∷ []),
          )
          ∷ (role_admin, scoped [])
          ∷ [],
    )
    ∷ ("consulting.request.create_own", (role_business, scoped (org ∷ [])) ∷ [])
    ∷ (
      "consulting.scope.confirm_own",
      (role_business, scoped (org ∷ []))
          ∷ (role_consultant, scoped (asg ∷ []))
          ∷ (role_admin, scoped [])
          ∷ [],
    )
    ∷ []

abbrev security_policies : List (PermissionKey × PermissionRolePolicies)
security_policies =
    (
      "consulting.request.read_own",
      (role_business, scoped (org ∷ [])) ∷ (role_admin, scoped []) ∷ [],
    )
    ∷ (
      "consulting.request.review_assigned",
      (role_consultant, scoped (asg ∷ [])) ∷ (role_admin, scoped []) ∷ [],
    )
    ∷ (
      "consulting.internal_note.manage",
      (role_consultant, scoped (asg ∷ [])) ∷ (role_admin, scoped []) ∷ [],
    )
    ∷ ("assessment.read_client", (role_business, scoped (org ∷ [])) ∷ (role_admin, scoped []) ∷ [])
    ∷ (
      "assessment.manage_assigned",
      (role_consultant, scoped (asg ∷ auth_scope ∷ []))
          ∷ (role_admin, scoped (auth_scope ∷ []))
          ∷ [],
    )
    ∷ ("finding.read_client", (role_business, scoped (org ∷ [])) ∷ (role_admin, scoped []) ∷ [])
    ∷ (
      "finding.manage_assigned",
      (role_consultant, scoped (asg ∷ auth_scope ∷ []))
          ∷ (role_admin, scoped (auth_scope ∷ []))
          ∷ [],
    )
    ∷ (
      "security_score.read_client",
      (role_business, scoped (org ∷ [])) ∷ (role_admin, scoped []) ∷ [],
    )
    ∷ (
      "security_score.calculate_assigned",
      (role_consultant, scoped (asg ∷ auth_scope ∷ []))
          ∷ (role_admin, scoped (auth_scope ∷ []))
          ∷ [],
    )
    ∷ ("report.read_client", (role_business, scoped (org ∷ [])) ∷ (role_admin, scoped []) ∷ [])
    ∷ (
      "report.prepare_review_assigned",
      (role_consultant, scoped (asg ∷ [])) ∷ (role_admin, scoped []) ∷ [],
    )
    ∷ ("report.release_client", (role_admin, scoped []) ∷ [])
    ∷ (
      "monitoring.read_choose_own",
      (role_business, conditioned (org ∷ cond ∷ []) ("MONITORING_SUBSCRIPTION_ACTIVE" ∷ []))
          ∷ (role_admin, scoped [])
          ∷ [],
    )
    ∷ (
      "monitoring.perform_assigned",
      (role_consultant, conditioned (asg ∷ cond ∷ []) ("MONITORING_ASSIGNED_PLAN_ACTIVE" ∷ []))
          ∷ (role_admin, scoped [])
          ∷ [],
    )
    ∷ (
      "monitoring.admin_manage",
      (role_admin, conditioned (cond ∷ []) ("MONITORING_ADMIN_FEATURE_ENABLED" ∷ [])) ∷ [],
    )
    ∷ (
      "donation.create",
      (role_learner, scoped [])
          ∷ (role_business, scoped [])
          ∷ (role_mentor, scoped [])
          ∷ (role_consultant, scoped [])
          ∷ (role_admin, scoped [])
          ∷ [],
    )
    ∷ ("donation.reporting.read_manage", (role_admin, scoped []) ∷ [])
    ∷ ("analytics.read", (role_admin, scoped []) ∷ [])
    ∷ ("audit.read", (role_admin, scoped []) ∷ [])
    ∷ ("audit.event.write_system", [])
    ∷ []

abbrev pub role_policies : List (PermissionKey × PermissionRolePolicies)
role_policies = platform_policies ++ learning_policies ++ security_policies

-- `ROLE_POLICIES[key]?.[role]`
unfoldable pub get_role_policy : PermissionKey → Role → Option RolePolicy
get_role_policy key role = elim (last_entry str_eq key role_policies) [
  | none ↦ none
  | some policies ↦ last_entry same_role role policies
]
