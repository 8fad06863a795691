-- ===== src/Authorization/Conditions.antt =====
-- The catalogue of COND conditions (src/core/security/authorization/condition-registry.ts).
pub mod Laws
use cyber_hub_api.Prelude.{String, Bool, Option, none, List, [], ◌∷◌, str_eq, last_entry, index_by}
use cyber_hub_api.Authorization.Types.{ActorContext, ResourceContext}

pub data ConditionStatus : Type 0 where
  implemented deferred : ConditionStatus

-- An evaluator may throw, which is `none`.
pub record ConditionDefinition : Type 0 where
  pub id : String
  pub description : String
  pub status : ConditionStatus
  pub evaluate : Option (ActorContext → Option ResourceContext → Option Bool)

abbrev deferred_condition : String → String → ConditionDefinition
deferred_condition id description = record {
  id = id;
  description = description;
  status = deferred;
  evaluate = none;
}

unfoldable pub production_conditions : List ConditionDefinition
production_conditions =
    deferred_condition "ACCOUNT_DELETION_NON_LEARNER_POLICY"
      "account.delete.request_own for ROLE_BUSINESS/ROLE_MENTOR/ROLE_CONSULTANT — RBAC v1.0: 'subject to later data-lifecycle policy', not yet defined."
    ∷ deferred_condition "LEARNING_PROGRESS_FEATURE_ENABLED"
        "resource.progress.manage_own — RBAC v1.0: 'Optional feature only'; no documented enablement mechanism."
    ∷ deferred_condition "CV_REVIEW_WORKFLOW_DEFINED"
        "cv_review.use_own (Admin) — RBAC v1.0: 'Exact reviewer workflow deferred to use-case spec'; API-GAP-001 explicitly blocks production implementation."
    ∷ deferred_condition "EMPLOYER_COMMUNICATION_PARTICIPANT"
        "employer.communication.participate — RBAC v1.0: 'exact message model/use cases TBD'."
    ∷ deferred_condition "MONITORING_SUBSCRIPTION_ACTIVE"
        "monitoring.read_choose_own — post-core feature, subscription model not yet implemented."
    ∷ deferred_condition "MONITORING_ASSIGNED_PLAN_ACTIVE"
        "monitoring.perform_assigned — post-core feature, subscription model not yet implemented."
    ∷ deferred_condition "MONITORING_ADMIN_FEATURE_ENABLED"
        "monitoring.admin_manage — post-core feature, subscription model not yet implemented."
    ∷ []

abbrev pub ConditionRegistry : Type 0
ConditionRegistry = List (String × ConditionDefinition)

-- The constructor throws (`none`) on a second definition of an id.
unfoldable pub new_condition_registry : List ConditionDefinition → Option ConditionRegistry
unfolding index_by
new_condition_registry conditions = index_by (λ (c : ConditionDefinition). c.id) conditions

abbrev pub get_condition : ConditionRegistry → String → Option ConditionDefinition
get_condition registry id = last_entry str_eq id registry
