-- ===== src/Workflow/Registry.antt =====
-- The registry of the workflow definitions (src/core/workflow/workflow-registry.ts).
mod Internship
mod Careers
mod Security
mod Monitoring
mod Learning
pub mod Laws
pub use Internship.{
  internship_programme_workflow, internship_application_workflow, submission_workflow,
  certificate_workflow,
}
pub use Careers.{career_listing_workflow, employer_opportunity_workflow}
pub use Security.{
  consulting_request_workflow, security_assessment_workflow, finding_workflow, report_workflow,
}
pub use Monitoring.{monitoring_subscription_workflow}
pub use Learning.{resource_workflow, course_workflow}
use cyber_hub_api.Prelude.{find, str_eq, List, [], ◌∷◌, Option, map, last_entry}
use cyber_hub_api.Workflow.Types.{
  WorkflowTransitionId, WorkflowTransitionDefinition, WorkflowDefinition, WorkflowEntityType,
  same_entity,
}

abbrev pub workflow_definitions : List WorkflowDefinition
workflow_definitions =
    internship_programme_workflow ∷ internship_application_workflow ∷ submission_workflow
    ∷ certificate_workflow ∷ career_listing_workflow ∷ employer_opportunity_workflow
    ∷ consulting_request_workflow ∷ security_assessment_workflow ∷ finding_workflow
    ∷ report_workflow ∷ monitoring_subscription_workflow ∷ resource_workflow ∷ course_workflow ∷ []

-- `new Map(WORKFLOW_DEFINITIONS.map((def) => [def.entityType, def]))`
abbrev pub workflow_registry : List (WorkflowEntityType × WorkflowDefinition)
workflow_registry = map (λ def. (def.entity_type, def)) workflow_definitions

-- `none` stands for the thrown error of an entity type with no definition.
unfoldable pub get_workflow_definition : WorkflowEntityType → Option WorkflowDefinition
get_workflow_definition entity_type = last_entry same_entity entity_type workflow_registry

-- `definition.transitions.find((t) => t.id === id)`
abbrev pub find_transition :
    WorkflowDefinition → WorkflowTransitionId → Option WorkflowTransitionDefinition
find_transition d id = find (λ t. str_eq t.id id) d.transitions
