-- ===== src/Lib.antt =====
-- The core of Cyber Hub API: its workflow state machines, its authorization, its idempotency, and
-- the services for security engagements that build on them.
--
-- A request passes PermissionGuard (core/security/guards/permission.guard.ts), which looks up the
-- declared operation, the permission and the caller's role in tables, has the scopes evaluated
-- against a resource, and chooses between an answer that admits a refusal and one that conceals the
-- resource. A command that changes the state of an entity then goes through a workflow service,
-- which writes with one compare-and-set UPDATE. A request with an Idempotency-Key is handled once.
-- The services for security engagements (consulting requests, scope authorizations, assessments,
-- findings and reports) run their commands in a transaction, which locks the rows that it reads,
-- checks access, AUTH_SCOPE, version and state as the command asks, writes with a guarded UPDATE, and
-- mostly adds an audit row.
--
-- Files, with the code that they model (under src/core of the repository,
-- where no other path is given):
--   Workflow/Types, Registry (and its children), Validation: workflow/workflow.types.ts,
--     workflow-registry.ts, workflow-validation.service.ts.
--   Workflow/Table, Cas: workflow/transition.repository.ts and the three services that call it; a
--     table is an interface with the laws of one UPDATE and one SELECT, and memory_table keeps it.
--     `meanwhile` is what other clients do between an UPDATE and the diagnostic read.
--   Workflow/Helper, Operations: workflow/workflow-helper.ts, workflow-operation-map.ts.
--   Authorization/Types, Permissions, RolePolicies, OperationPolicies, Operations: the types and
--     tables of security/authorization, with every row.
--   Authorization/Conditions, Resolver, AuthScope, Scope: condition-registry.ts,
--     resource-context-resolver.ts, auth-scope-evaluator.service.ts with
--     security-scope-authorization.repository.ts, scope-evaluation.service.ts.
--   Authorization/Disclosure, Guard: disclosure-policy.ts, ../guards/permission.guard.ts.
--   Idempotency: idempotency (service, guard, interceptor, in-memory storage).
--   Engagements/Schema: the tables of src/infrastructure/database/schema that these services use, as
--     lists of rows. Engagements/Action: a service method as an action on the database that returns
--     or raises; Action/Rules, Keeps and Settles reason about its do blocks.
--   Engagements/Access, Assessments, Findings: src/modules/security-work (security-work-access.ts,
--     security-work.service.ts, security-work.repository.ts).
--   Engagements/Reports and its children Drafts and Review: src/modules/security-report
--     (security-report.service.ts, security-report.repository.ts, report-file-policy.ts).
--   Engagements/Scopes, Consulting and its child Commands: src/modules/consulting
--     (consulting.service.ts, consulting-requests.repository.ts, scope-authorizations.repository.ts).
--   Engagements/Consistency: what reports, findings and memberships agree on, in every database
--     that the operations reach.
--   Prelude: names and lemmas that the modules share. Tests: runs at concrete inputs.
--
-- A thrown error is none, a constructor of an exception type, or an outcome. Names of states,
-- permissions and operations are texts, as in the source. Numbers (versions, milliseconds, status
-- codes) are natural numbers, and overflow of a JavaScript number is not modelled. No function runs
-- on fuel. The database under the workflow and authorization modules, the resolvers and conditions that product modules supply, the
-- audit service and SHA-256 are parameters; under Engagements a database is its lists of rows.
--
-- A transaction of an engagement runs at once, since it holds the locks of the rows that it reads;
-- the id of a new row is the caller's, and where it has to be new a theorem says so.
--
-- Not modelled: the product modules other than those for engagements, the paged lists and client
-- views of engagements, authentication, sessions and CSRF, the zod schemas, pagination,
-- the exception filter, configuration, logging and the email code. The
-- guard's catch-all for an unexpected exception is not modelled, since the modelled parts throw
-- only what they return here.
pub mod Prelude
pub mod Workflow
pub mod Authorization
pub mod Idempotency
pub mod Engagements
pub mod Tests
