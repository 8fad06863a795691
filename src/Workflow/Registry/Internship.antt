-- ===== src/Workflow/Registry/Internship.antt =====
-- The workflow definitions of internships: programmes, applications, submissions and certificates
-- (src/core/workflow/workflow-registry.ts, WORKFLOW_DEFINITIONS).
use cyber_hub_api.Prelude.{[], ◌∷◌}
use cyber_hub_api.Workflow.Types.{
  WorkflowDefinition, internship_programme, internship_application, submission, certificate,
}

abbrev pub internship_programme_workflow : WorkflowDefinition
internship_programme_workflow = record {
  entity_type = internship_programme;
  states = "DRAFT" ∷ "PUBLISHED" ∷ "CLOSED" ∷ "ARCHIVED" ∷ [];
  terminal_states = "ARCHIVED" ∷ [];
  transitions =
      record {
        id = "WF-PRG-01";
        from = "DRAFT" ∷ [];
        to = "PUBLISHED";
        source = "State & Workflow Spec v1.0 §3.1";
      }
      ∷ record {
        id = "WF-PRG-02";
        from = "PUBLISHED" ∷ [];
        to = "CLOSED";
        source = "State & Workflow Spec v1.0 §3.1";
      }
      ∷ record {
        id = "WF-PRG-03";
        from = "CLOSED" ∷ [];
        to = "ARCHIVED";
        source = "State & Workflow Spec v1.0 §3.1";
      }
      ∷ record {
        id = "WF-PRG-04";
        from = "PUBLISHED" ∷ [];
        to = "DRAFT";
        source =
            "State & Workflow Spec v1.0 §3.1 — 'Allowed only before any learner application exists; otherwise close instead' (application-existence guard is enforced by the calling service, not the pure state machine)";
      }
      ∷ [];
}

abbrev pub internship_application_workflow : WorkflowDefinition
internship_application_workflow = record {
  entity_type = internship_application;
  states = "SUBMITTED" ∷ "UNDER_REVIEW" ∷ "ACCEPTED" ∷ "REJECTED" ∷ [];
  terminal_states = "ACCEPTED" ∷ "REJECTED" ∷ [];
  transitions =
      record {
        id = "WF-APP-01";
        from = [];
        to = "SUBMITTED";
        source = "State & Workflow Spec v1.0 §3.2";
      }
      ∷ record {
        id = "WF-APP-02";
        from = "SUBMITTED" ∷ [];
        to = "UNDER_REVIEW";
        source = "State & Workflow Spec v1.0 §3.2";
      }
      ∷ record {
        id = "WF-APP-03";
        from = "UNDER_REVIEW" ∷ [];
        to = "ACCEPTED";
        source = "State & Workflow Spec v1.0 §3.2";
      }
      ∷ record {
        id = "WF-APP-04";
        from = "UNDER_REVIEW" ∷ [];
        to = "REJECTED";
        source = "State & Workflow Spec v1.0 §3.2";
      }
      ∷ [];
}

abbrev pub submission_workflow : WorkflowDefinition
submission_workflow = record {
  entity_type = submission;
  states = "SUBMITTED" ∷ "UNDER_REVIEW" ∷ "REVISION_REQUIRED" ∷ "APPROVED" ∷ [];
  terminal_states = "APPROVED" ∷ [];
  transitions =
      record {
        id = "WF-SUB-01";
        from = [];
        to = "SUBMITTED";
        source = "State & Workflow Spec v1.0 §3.4";
      }
      ∷ record {
        id = "WF-SUB-02";
        from = "SUBMITTED" ∷ [];
        to = "UNDER_REVIEW";
        source = "State & Workflow Spec v1.0 §3.4";
      }
      ∷ record {
        id = "WF-SUB-03";
        from = "UNDER_REVIEW" ∷ [];
        to = "APPROVED";
        source = "State & Workflow Spec v1.0 §3.4";
      }
      ∷ record {
        id = "WF-SUB-04";
        from = "UNDER_REVIEW" ∷ [];
        to = "REVISION_REQUIRED";
        source = "State & Workflow Spec v1.0 §3.4";
      }
      ∷ record {
        id = "WF-SUB-05";
        from = "REVISION_REQUIRED" ∷ [];
        to = "SUBMITTED";
        source = "State & Workflow Spec v1.0 §3.4";
      }
      ∷ [];
}

abbrev pub certificate_workflow : WorkflowDefinition
certificate_workflow = record {
  entity_type = certificate;
  states = "ISSUED" ∷ "REVOKED" ∷ [];
  terminal_states = "REVOKED" ∷ [];
  transitions =
      record {
        id = "WF-CERT-01";
        from = [];
        to = "ISSUED";
        source = "State & Workflow Spec v1.0 §4";
      }
      ∷ record {
        id = "WF-CERT-02";
        from = "ISSUED" ∷ [];
        to = "REVOKED";
        source = "State & Workflow Spec v1.0 §4";
      }
      ∷ [];
}
