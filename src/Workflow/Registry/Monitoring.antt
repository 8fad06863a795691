-- ===== src/Workflow/Registry/Monitoring.antt =====
-- The workflow definitions of monitoring subscriptions
-- (src/core/workflow/workflow-registry.ts, WORKFLOW_DEFINITIONS).
use cyber_hub_api.Prelude.{[], ◌∷◌}
use cyber_hub_api.Workflow.Types.{WorkflowDefinition, monitoring_subscription}

abbrev pub monitoring_subscription_workflow : WorkflowDefinition
monitoring_subscription_workflow = record {
  entity_type = monitoring_subscription;
  states = "REQUESTED" ∷ "ACTIVE" ∷ "PAUSED" ∷ "CANCELLED" ∷ [];
  terminal_states = "CANCELLED" ∷ [];
  transitions =
      record {
        id = "WF-MON-01";
        from = [];
        to = "REQUESTED";
        source = "State & Workflow Spec v1.0 §8";
      }
      ∷ record {
        id = "WF-MON-02";
        from = "REQUESTED" ∷ [];
        to = "ACTIVE";
        source = "State & Workflow Spec v1.0 §8";
      }
      ∷ record {
        id = "WF-MON-03";
        from = "ACTIVE" ∷ [];
        to = "PAUSED";
        source = "State & Workflow Spec v1.0 §8";
      }
      ∷ record {
        id = "WF-MON-04";
        from = "PAUSED" ∷ [];
        to = "ACTIVE";
        source = "State & Workflow Spec v1.0 §8";
      }
      ∷ record {
        id = "WF-MON-05";
        from = "REQUESTED" ∷ [];
        to = "CANCELLED";
        source = "State & Workflow Spec v1.0 §8";
      }
      ∷ record {
        id = "WF-MON-06";
        from = "ACTIVE" ∷ [];
        to = "CANCELLED";
        source = "State & Workflow Spec v1.0 §8";
      }
      ∷ record {
        id = "WF-MON-07";
        from = "PAUSED" ∷ [];
        to = "CANCELLED";
        source = "State & Workflow Spec v1.0 §8";
      }
      ∷ [];
}
