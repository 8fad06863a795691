-- ===== src/Engagements/Schema.antt =====
-- The tables behind the engagements (src/infrastructure/database/schema), with the columns that
-- the services read and write, as lists of rows. Times are milliseconds; a jsonb column that is
-- only stored is a text. The users' table is read only.
pub mod Laws
pub mod Writes
use cyber_hub_api.Prelude.{
  ℕ, String, Bool, Option, List, [], ◌∷◌, map, find, if◌then◌else◌, none, some, str_eq, ◌++◌, true,
  false, refl, inl, inr, arith, ◌≡◌,
}
use cyber_hub_api.Authorization.Types.{Role}
use cyber_hub_api.Authorization.AuthScope.{JsonColumn}

pub record User : Type 0 where
  pub id : String
  pub role : Role
  pub employer_id : Option String

pub record ConsultingRequest : Type 0 where
  pub id : String
  pub employer_id : String
  pub submitted_by_user_id : String
  pub company_details : String
  pub business_size : String
  pub security_concern : String
  pub business_impact : Option String
  pub requested_service : String
  pub environment_details : Option String
  pub contact_information : String
  pub status : String
  pub state_version : ℕ
  pub assigned_consultant_id : Option String
  pub submitted_at : ℕ
  pub accepted_at : Option ℕ
  pub completed_at : Option ℕ
  pub updated_at : ℕ

pub record ScopeAuthorization : Type 0 where
  pub id : String
  pub consulting_request_id : String
  pub employer_id : String
  pub version_no : ℕ
  pub authorized_targets : JsonColumn
  pub allowed_activities : JsonColumn
  pub restrictions : JsonColumn
  pub confirmed_by_user_id : String
  pub confirmed_at : ℕ
  pub valid_from : ℕ
  pub valid_until : Option ℕ
  pub is_current : Bool
  pub superseded_at : Option ℕ
  pub revoked_at : Option ℕ
  pub created_at : ℕ

pub record ScopeSnapshot : Type 0 where
  pub authorized_targets : JsonColumn
  pub allowed_activities : JsonColumn
  pub restrictions : JsonColumn

pub record SecurityAssessment : Type 0 where
  pub id : String
  pub employer_id : String
  pub consulting_request_id : String
  pub scope_authorization_id : String
  pub service : String
  pub scope_snapshot : ScopeSnapshot
  pub assigned_consultant_id : String
  pub status : String
  pub state_version : ℕ
  pub started_at : Option ℕ
  pub completed_at : Option ℕ
  pub cancelled_at : Option ℕ
  pub created_at : ℕ
  pub updated_at : ℕ

pub record VulnerabilityFinding : Type 0 where
  pub id : String
  pub assessment_id : String
  pub employer_id : String
  pub title : String
  pub severity : String
  pub description : Option String
  pub evidence_summary : Option String
  pub recommendation : String
  pub status : String
  pub state_version : ℕ
  pub resolved_at : Option ℕ
  pub created_by_user_id : String
  pub created_at : ℕ
  pub updated_at : ℕ

-- The working content of a report, as far as the code looks: an object's keys.
pub data JsonContent : Type 0 where
  json_object : List String → JsonContent
  json_array_content json_scalar : JsonContent

pub record SecurityReport : Type 0 where
  pub id : String
  pub assessment_id : String
  pub employer_id : String
  pub draft_content : JsonContent
  pub status : String
  pub state_version : ℕ
  pub version_no : ℕ
  pub supersedes_report_id : Option String
  pub prepared_by_user_id : String
  pub reviewed_by_user_id : Option String
  pub released_at : Option ℕ
  pub created_at : ℕ
  pub updated_at : ℕ

pub record ReportFinding : Type 0 where
  pub report_id : String
  pub finding_id : String
  pub sort_order : ℕ
  pub included_at : ℕ

pub record ConsultingNote : Type 0 where
  pub id : String
  pub consulting_request_id : String
  pub author_user_id : String
  pub body : String
  pub created_at : ℕ

-- A value under a key of an audit row's metadata.
pub data MetaValue : Type 0 where
  meta_null : MetaValue
  meta_text : String → MetaValue
  meta_number : ℕ → MetaValue
  meta_texts : List String → MetaValue

pub record AuditLog : Type 0 where
  pub actor_user_id : String
  pub actor_role : Role
  pub action : String
  pub entity_type : String
  pub entity_id : String
  pub employer_id : String
  pub request_id : Option String
  pub metadata : List (String × MetaValue)

pub record Database : Type 0 where
  pub users : List User
  pub requests : List ConsultingRequest
  pub scopes : List ScopeAuthorization
  pub assessments : List SecurityAssessment
  pub findings : List VulnerabilityFinding
  pub reports : List SecurityReport
  pub memberships : List ReportFinding
  pub notes : List ConsultingNote
  pub audits : List AuditLog

module _ {A : Type 0} where
  -- SELECT … WHERE test
  abbrev pub select_where : (A → Bool) → List A → List A
  select_where test [] = []
  select_where test (r ∷ rows) =
      let rest = select_where test rows in if test r then r ∷ rest else rest

  -- UPDATE … SET change WHERE test
  abbrev pub update_where : (A → Bool) → (A → A) → List A → List A
  update_where test change [] = []
  update_where test change (r ∷ rows) =
      (if test r then change r else r) ∷ update_where test change rows

  -- The first row of UPDATE … RETURNING
  abbrev pub returning : (A → Bool) → (A → A) → List A → Option A
  returning test change rows = elim (find test rows) [ none ↦ none | some r ↦ some (change r) ]

  -- DELETE … WHERE test
  abbrev pub delete_where : (A → Bool) → List A → List A
  delete_where test [] = []
  delete_where test (r ∷ rows) =
      let rest = delete_where test rows in if test r then rest else r ∷ rest
