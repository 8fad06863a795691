-- ===== src/Authorization/AuthScope.antt =====
-- AUTH_SCOPE (src/core/security/authorization: auth-scope-evaluator.service.ts and
-- security-scope-authorization.repository.ts). What the database answers to each query is the
-- parameter `AuthScopeTables`; times are milliseconds.
pub mod Laws
use cyber_hub_api.Prelude.{
  ℕ, String, Bool, true, false, not, ◌&&◌, ◌||◌, Option, none, some, List, [], ◌∷◌, str_eq,
  includes, ltb, is_empty, if◌then◌else◌,
}

-- A jsonb value, as far as `parseStringArray` looks.
pub data JsonItem : Type 0 where
  text : String → JsonItem
  not_text : JsonItem

pub data JsonColumn : Type 0 where
  json_array : List JsonItem → JsonColumn
  json_other : JsonColumn

abbrev pub texts : List JsonItem → Option (List String)
texts [] = some []
texts (text s ∷ items) = elim (texts items) [ none ↦ none | some rest ↦ some (s ∷ rest) ]
texts (not_text ∷ items) = none

unfoldable pub parse_string_array : JsonColumn → Option (List String)
parse_string_array (json_array items) = texts items
parse_string_array json_other = none

pub record AssessmentRow : Type 0 where
  pub id : String
  pub employer_id : String
  pub consulting_request_id : String
  pub scope_authorization_id : String
  pub assigned_consultant_id : String
  pub service : String

pub record AuthorizationRow : Type 0 where
  pub id : String
  pub consulting_request_id : String
  pub employer_id : String
  pub is_current : Bool
  pub revoked_at : Option ℕ
  pub valid_from : ℕ
  pub valid_until : Option ℕ
  pub authorized_targets : JsonColumn
  pub allowed_activities : JsonColumn

pub record RequestRow : Type 0 where
  pub id : String
  pub employer_id : String
  pub requested_service : String

-- A query returns its first row, or none, or throws.
pub data Query (A : Type 0) : Type 0 where
  row : Option A → Query A
  query_failed : Query A

-- The tables behind the repository's queries. A missing route parameter is passed on as it is.
pub record AuthScopeTables : Type 0 where
  pub assessment_by_id : String → Query AssessmentRow
  pub authorization_by_id : String → Query AuthorizationRow
  pub request_by_id : Option String → Query RequestRow
  pub current_authorization_of : Option String → Query AuthorizationRow
  pub assessment_id_of_finding : String → Query String

-- AssessmentSecurityContext, with its SecurityScopeAuthorizationContext
pub record AssessmentSecurityContext : Type 0 where
  pub assessment : AssessmentRow
  pub authorization : AuthorizationRow
  pub authorized_targets : List String
  pub allowed_activities : List String

abbrev pub first_row : {A : Type 0} → Query A → Option A
first_row (row o) = o
first_row query_failed = none

-- The text of a reason: all begin with "AUTH_SCOPE:".
pub data AuthScopeReason : Type 0 where
  no_assessment_locator no_context no_request_context no_request_locator : AuthScopeReason
  request_linkage employer_linkage request_employer_linkage : AuthScopeReason
  not_current revoked not_yet_valid expired : AuthScopeReason
  activity_not_covered target_not_covered no_targets coverage_missing : AuthScopeReason

-- `{ allowed: false }` may come with no reason.
pub data AuthScopeResult : Type 0 where
  scope_allowed : AuthScopeResult
  scope_denied : Option AuthScopeReason → AuthScopeResult

abbrev pub deny : AuthScopeReason → AuthScopeResult
deny r = scope_denied (some r)

pub record AuthScopeInput : Type 0 where
  pub assessment_id : String
  pub requested_target : Option String
  pub requested_activity : Option String

-- `auth.validUntil !== null && now > auth.validUntil`
abbrev pub is_past : ℕ → Option ℕ → Bool
is_past now none = false
is_past now (some valid_until) = ltb valid_until now

abbrev pub is_set : Option ℕ → Bool
is_set none = false
is_set (some _) = true

-- The tests on is_current, revoked_at, valid_from and valid_until, in the code's order.
abbrev pub time_checks : AuthorizationRow → ℕ → AuthScopeResult → AuthScopeResult
time_checks auth now rest =
    if not auth.is_current
    then deny not_current
    else if is_set auth.revoked_at
    then deny revoked
    else if ltb now auth.valid_from
    then deny not_yet_valid
    else if is_past now auth.valid_until
    then deny expired
    else rest

abbrev pub target_check : Option String → List String → AuthScopeResult
target_check none targets = if is_empty targets then deny no_targets else scope_allowed
target_check (some target) targets =
    if not (includes target targets) then deny target_not_covered else scope_allowed

abbrev pub activity_of : Option String → AssessmentRow → String
activity_of none assessment = assessment.service
activity_of (some activity) assessment = activity

-- `evaluateContext`
unfoldable pub evaluate_context : ℕ → AssessmentSecurityContext → AuthScopeInput → AuthScopeResult
evaluate_context now context input =
    if not (str_eq auth.consulting_request_id assessment.consulting_request_id)
    then deny request_linkage
    else if not (str_eq auth.employer_id assessment.employer_id)
    then deny employer_linkage
    else time_checks auth now (
        if not
          (includes (activity_of input.requested_activity assessment) context.allowed_activities)
        then deny activity_not_covered
        else target_check input.requested_target context.authorized_targets)
  where
    open context use {assessment, authorization as auth}

-- `evaluateRequestContext`
unfoldable pub evaluate_request_context : ℕ → RequestRow → AuthorizationRow → AuthScopeResult
evaluate_request_context now request authorization =
    if not (str_eq authorization.consulting_request_id request.id)
      || not (str_eq authorization.employer_id request.employer_id)
    then deny request_employer_linkage
    else time_checks authorization now scope_allowed

-- The coverage test of `evaluateAssessmentCreation`.
abbrev pub covers_service : AuthorizationRow → String → Bool
covers_service authorization service = elim (parse_string_array authorization.authorized_targets) [
  | none ↦ false
  | some targets ↦ elim (parse_string_array authorization.allowed_activities) [
    | none ↦ false
    | some activities ↦ not (is_empty targets) && includes service activities
  ]
]

module _ (db : AuthScopeTables) (now : ℕ) where
  -- SecurityScopeAuthorizationRepository.loadAssessmentSecurityContext
  unfoldable pub load_assessment_security_context : String → Option AssessmentSecurityContext
  load_assessment_security_context assessment_id =
      elim (first_row (db.assessment_by_id assessment_id)) [
        | none ↦ none
        | some assessment ↦
            elim (first_row (db.authorization_by_id assessment.scope_authorization_id)) [
              | none ↦ none
              | some auth ↦ elim (parse_string_array auth.authorized_targets) [
                | none ↦ none
                | some targets ↦ elim (parse_string_array auth.allowed_activities) [
                  | none ↦ none
                  | some activities ↦ some (record {
                    assessment = assessment;
                    authorization = auth;
                    authorized_targets = targets;
                    allowed_activities = activities;
                  })
                ]
              ]
            ]
      ]

  -- loadConsultingRequestScopeContext
  unfoldable pub load_consulting_request_scope_context :
      Option String → Option (RequestRow × AuthorizationRow)
  load_consulting_request_scope_context request_id =
      elim (first_row (db.request_by_id request_id)) [
        | none ↦ none
        | some request ↦ elim (first_row (db.current_authorization_of request_id)) [
          | none ↦ none
          | some authorization ↦ some (request, authorization)
        ]
      ]

  -- AuthScopeEvaluator.evaluate
  unfoldable pub evaluate_assessment : AuthScopeInput → AuthScopeResult
  evaluate_assessment input =
      if str_eq input.assessment_id ""
      then deny no_assessment_locator
      else elim (load_assessment_security_context input.assessment_id) [
        | none ↦ deny no_context
        | some context ↦ evaluate_context now context input
      ]

  unfoldable pub evaluate_consulting_request : Option String → AuthScopeResult
  evaluate_consulting_request request_id = elim (load_consulting_request_scope_context request_id) [
    | none ↦ deny no_request_context
    | some (request, authorization) ↦ evaluate_request_context now request authorization
  ]

  unfoldable pub evaluate_assessment_creation : Option String → AuthScopeResult
  evaluate_assessment_creation request_id =
      elim (load_consulting_request_scope_context request_id) [
        | none ↦ scope_denied none
        | some (request, authorization) ↦
            elim (evaluate_request_context now request authorization) [
              | scope_denied reason ↦ scope_denied reason
              | scope_allowed ↦
                  if covers_service authorization request.requested_service
                  then scope_allowed
                  else deny coverage_missing
            ]
      ]

  abbrev pub assessment_input : String → AuthScopeInput
  assessment_input id = record {
    assessment_id = id;
    requested_target = none;
    requested_activity = none;
  }

  -- `assessmentId ? … : …` also refuses an empty text.
  unfoldable pub evaluate_finding : String → AuthScopeResult
  evaluate_finding finding_id = elim (first_row (db.assessment_id_of_finding finding_id)) [
    | none ↦ scope_denied none
    | some assessment_id ↦
        if str_eq assessment_id ""
        then scope_denied none
        else evaluate_assessment (assessment_input assessment_id)
  ]
