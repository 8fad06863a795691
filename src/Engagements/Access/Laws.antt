-- ===== src/Engagements/Access/Laws.antt =====
-- What the checks that the services share mean.
use cyber_hub_api.Prelude.{
  subst, eq_iff, str_eq, find_sound, Memᴰ, Option-cases, ◌==◌, arith, ◌≡◌, refl, String, some, ℕ,
  false, true, inl, inr,
}
use cyber_hub_api.Engagements.Schema.{SecurityReport, SecurityAssessment, Database}
use cyber_hub_api.Engagements.Action.Rules.{
  on_pure, after_raise_if, Ensures, after_gets, after_or_raise, on_or_raise,
}
use cyber_hub_api.Engagements.Access.{
  report_by_key, request_by_key, assessment_by_key, ReportContext, find_report, scope_denied,
  scope_allowed, creation_verdict, assessment_verdict, is_allowed, not, require_creation_scope,
  require_scope, AuthScopeResult, lock_assessment, AssessmentContext, find_assessment,
}

-- A lock finds the row and writes nothing.
pub lock_assessment-Ensures {ℓ} :
    (id : String) (db : Database) {Q : AssessmentContext → Database → Type ℓ}
    → ((row : AssessmentContext) → find_assessment id db ≡ some row → Q row db)
    → Ensures Q (lock_assessment id) db
unfolding lock_assessment
lock_assessment-Ensures id db h = after_gets _ _ (
    after_or_raise _ _ _ λ initial found.
      after_gets _ _ (after_or_raise _ _ _ λ request locked. after_gets _ _ (on_or_raise _ _ h)))

allowed_of : (r : AuthScopeResult) → not (is_allowed r) ≡ false → r ≡ scope_allowed
allowed_of scope_allowed h = refl
allowed_of (scope_denied reason) h = absurd (ground arith)

pub require_scope-Ensures {ℓ} :
    (now : ℕ) (id : String) (db : Database) {Q : Unit {0} → Database → Type ℓ}
    → (assessment_verdict db now id ≡ scope_allowed → Q tt db)
    → Ensures Q (require_scope now id) db
unfolding require_scope
require_scope-Ensures now id db h =
    after_gets _ _ (after_raise_if _ _ _ λ denied. on_pure _ (h (allowed_of _ denied)))

pub require_creation_scope-Ensures {ℓ} :
    (now : ℕ) (id : String) (db : Database) {Q : Unit {0} → Database → Type ℓ}
    → (creation_verdict db now id ≡ scope_allowed → Q tt db)
    → Ensures Q (require_creation_scope now id) db
unfolding require_creation_scope
require_creation_scope-Ensures now id db h =
    after_gets _ _ (after_raise_if _ _ _ λ denied. on_pure _ (h (allowed_of _ denied)))

pub equal_of_not_differ : (a b : ℕ) → not (a == b) ≡ false → a ≡ b
equal_of_not_differ a b h = ground arith

-- The assessment that is found has the key that was asked for.
pub find_assessment_at :
    (id : String) (db : Database) {row : AssessmentContext}
    → find_assessment id db ≡ some row
    → row.assessment.id ≡ id
unfolding find_assessment
find_assessment_at id db {row} e = elim (Option-cases (assessment_by_key db id)) [
  | inl missing ↦ absurd (ground arith)
  | inr (a, found) ↦ elim (Option-cases (request_by_key db a.consulting_request_id)) [
    | inl missing ↦ absurd (ground arith)
    | inr (r, joined) ↦
        let same : a ≡ row.assessment = ground arith in
        let key =
          (find_sound (λ (r : SecurityAssessment). str_eq r.id id) db.assessments found).1 in
        (eq_iff row.assessment.id id).0
          (subst (λ (a : SecurityAssessment). str_eq a.id id ≡ true) same key)
  ]
]

pub find_report_at :
    (id : String) (db : Database) {row : ReportContext}
    → find_report id db ≡ some row
    → Memᴰ row.report db.reports × (row.report.id ≡ id)
unfolding find_report
find_report_at id db {row} e = elim (Option-cases (report_by_key db id)) [
  | inl missing ↦ absurd (ground arith)
  | inr (a, found) ↦ elim (Option-cases (find_assessment a.assessment_id db)) [
    | inl missing ↦ absurd (ground arith)
    | inr (r, joined) ↦
        let same : a ≡ row.report = ground arith in
        let (member, key) = find_sound (λ (r : SecurityReport). str_eq r.id id) db.reports found in
        (
          subst (λ a. Memᴰ a db.reports) same member,
          (eq_iff row.report.id id).0
              (subst (λ (a : SecurityReport). str_eq a.id id ≡ true) same key),
        )
  ]
]
