-- ===== src/Workflow/Types.antt =====
-- The vocabulary of the workflow state machines (src/core/workflow/workflow.types.ts).
-- States and transition ids are strings, as in the source; `WorkflowEntityType` is a union of
-- literals, so it is a data type with the literal of each constructor in `entity_name`.
use cyber_hub_api.Prelude.{String, List, Bool, str_eq}

pub data WorkflowEntityType : Type 0 where
  internship_programme internship_application submission certificate : WorkflowEntityType
  career_listing employer_opportunity : WorkflowEntityType
  consulting_request security_assessment finding report : WorkflowEntityType
  monitoring_subscription resource course : WorkflowEntityType

abbrev pub entity_name : WorkflowEntityType → String
entity_name internship_programme = "InternshipProgramme"
entity_name internship_application = "InternshipApplication"
entity_name submission = "Submission"
entity_name certificate = "Certificate"
entity_name career_listing = "CareerListing"
entity_name employer_opportunity = "EmployerOpportunity"
entity_name consulting_request = "ConsultingRequest"
entity_name security_assessment = "SecurityAssessment"
entity_name finding = "Finding"
entity_name report = "Report"
entity_name monitoring_subscription = "MonitoringSubscription"
entity_name resource = "Resource"
entity_name course = "Course"

-- `a === b` on entity types
abbrev pub same_entity : WorkflowEntityType → WorkflowEntityType → Bool
same_entity a b = str_eq (entity_name a) (entity_name b)

abbrev pub WorkflowState : Type 0
WorkflowState = String

abbrev pub WorkflowTransitionId : Type 0
WorkflowTransitionId = String

pub record WorkflowTransitionDefinition : Type 0 where
  pub id : WorkflowTransitionId
  pub from : List WorkflowState
  pub to : WorkflowState
  pub source : String

pub record WorkflowDefinition : Type 0 where
  pub entity_type : WorkflowEntityType
  pub states : List WorkflowState
  pub terminal_states : List WorkflowState
  pub transitions : List WorkflowTransitionDefinition
