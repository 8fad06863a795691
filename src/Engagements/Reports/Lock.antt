-- ===== src/Engagements/Reports/Lock.antt =====
-- Which report an admin may lock
-- (src/modules/security-report/services/security-report.service.ts: lockReport).
use cyber_hub_api.Engagements.Action.Settles.{
  by_pure, by_require, by_raise_if, by_returned, by_or_raise, by_gets, Settles,
}
use cyber_hub_api.Engagements.Reports.{report_linked, lock_report}
use cyber_hub_api.Engagements.Access.{
  require_operational_role, require_request_access, require_assessment_access, assessment_by_key,
  request_by_key, AssessmentContext, report_by_key, find_assessment, ReportContext, lock_assessment,
  find_report,
}
use cyber_hub_api.Prelude.{
  sym, String, ◌≡◌, refl, true, Option-cases, inl, inr, some, none, eq_iff, find_sound, arith,
  str_eq, subst,
}
use cyber_hub_api.Authorization.Types.{role_admin}
use cyber_hub_api.Engagements.Schema.{Database, ConsultingRequest}
use cyber_hub_api.Engagements.Action.{◌>>=◌, AppException, AuthPrincipal, returned, not_found}

-- The report that an id names, with its assessment and request, all of one employer.
pub record IsLinkedReport (id : String) (db : Database) (row : ReportContext) : Type 0 where
  pub found : find_report id db ≡ some row
  pub same_assessment : row.report.assessment_id ≡ row.at.assessment.id
  pub report_employer : row.report.employer_id ≡ row.at.assessment.employer_id
  pub request_employer : row.at.assessment.employer_id ≡ row.at.request.employer_id

request_found :
    (id : String) (db : Database) {row : AssessmentContext}
    → find_assessment id db ≡ some row
    → request_by_key db row.request.id ≡ some row.request
unfolding find_assessment
request_found id db {row} e = elim (Option-cases (assessment_by_key db id)) [
  | inl missing ↦ absurd (ground arith)
  | inr (a, found) ↦ elim (Option-cases (request_by_key db a.consulting_request_id)) [
    | inl missing ↦ absurd (ground arith)
    | inr (r, joined) ↦
        let same : r ≡ row.request = ground arith in
        let key = (eq_iff r.id a.consulting_request_id).0 (
          (find_sound (λ (q : ConsultingRequest). str_eq q.id a.consulting_request_id) db.requests
            joined).1) in
        subst (λ (q : ConsultingRequest). request_by_key db q.id ≡ some q) same
          (subst (λ k. request_by_key db k ≡ some r) (sym key) joined)
  ]
]

-- A row that an id names is locked as it was read.
lock_assessment_found :
    (id : String) (db : Database) {row : AssessmentContext}
    → find_assessment id db ≡ some row
    → lock_assessment id db ≡ returned (row, db)
unfolding lock_assessment ◌>>=◌
lock_assessment_found id db {row} e =
    let locked : request_by_key db row.request.id ≡ some row.request = request_found id db e in
    rw (e, locked, e) refl

joined_assessment :
    (id : String) (db : Database) {row : ReportContext}
    → find_report id db ≡ some row
    → find_assessment row.report.assessment_id db ≡ some row.at
unfolding find_report
joined_assessment id db {row} e = elim (Option-cases (report_by_key db id)) [
  | inl missing ↦ absurd (ground arith)
  | inr (r, found) ↦ elim (Option-cases (find_assessment r.assessment_id db)) [
    | inl missing ↦ absurd (ground arith)
    | inr (a, joined) ↦
        let whole : record { report = r; at = a } ≡ row = ground arith in
        subst (λ (c : ReportContext). find_assessment c.report.assessment_id db ≡ some c.at) whole
          joined
  ]
]

IsLinkedReport-by :
    (id : String) (db : Database) {row : ReportContext}
    → find_report id db ≡ some row
    → report_linked row ≡ true
    → IsLinkedReport id db row
unfolding report_linked
IsLinkedReport-by id db {row} e h = record {
  found = e;
  same_assessment = (eq_iff row.report.assessment_id row.at.assessment.id).0 (ground arith);
  report_employer = (eq_iff row.report.employer_id row.at.assessment.employer_id).0 (ground arith);
  request_employer =
      (eq_iff row.at.assessment.employer_id row.at.request.employer_id).0 (ground arith);
}

linked_of_IsLinkedReport :
    (id : String) (db : Database) {row other : ReportContext}
    → find_report id db ≡ some other
    → IsLinkedReport id db row
    → report_linked other ≡ true
unfolding report_linked
linked_of_IsLinkedReport id db {row} {other} e o =
    let same : row ≡ other = (let f = o.found in ground arith) in
    let key = (eq_iff row.report.assessment_id row.at.assessment.id).1 o.same_assessment in
    let owner = (eq_iff row.report.employer_id row.at.assessment.employer_id).1 o.report_employer in
    let client =
      (eq_iff row.at.assessment.employer_id row.at.request.employer_id).1 o.request_employer in
    subst (λ c. report_linked c ≡ true) same (ground arith)

-- An admin has access to every assessment that is linked to its request.
accessible_by_admin :
    (principal : AuthPrincipal) (id : String) (db : Database) {row : ReportContext}
    → principal.role ≡ role_admin
    → IsLinkedReport id db row
    → require_assessment_access row.at principal ≡ none
unfolding require_assessment_access require_request_access require_operational_role
accessible_by_admin principal id db {row} admin o =
    let client =
      (eq_iff row.at.assessment.employer_id row.at.request.employer_id).1 o.request_employer in
    rw (admin, client) refl

pub lock_report-Settles :
    (Q : ReportContext → Database → Type 0) (E : AppException → Type 0) (id : String)
    (principal : AuthPrincipal) (db : Database)
    → principal.role ≡ role_admin
    → (((row : ReportContext) → ¬ IsLinkedReport id db row) → E not_found)
    → ((row : ReportContext) → IsLinkedReport id db row → Q row db)
    → Settles Q E (lock_report id principal) db
unfolding lock_report
lock_report-Settles Q E id principal db admin lost h =
    let absent : find_report id db ≡ none → E not_found =
      λ e. lost λ row o. (let f = o.found in ground arith) in
    by_gets _ _ (
      by_or_raise _ _ _ absent λ initial read.
        by_returned _ _ (lock_assessment_found _ db (joined_assessment id db read)) (
          by_gets _ _ (
            by_or_raise _ _ _ absent λ row found.
              by_raise_if _ _ _
                (λ apart.
                  lost
                    λ other o. let linked = linked_of_IsLinkedReport id db found o in ground arith)
                λ linked.
                  let o = IsLinkedReport-by id db found (ground arith) in
                  let open_to = accessible_by_admin principal id db admin o in
                  by_require _ _ (λ e denied. absurd (ground arith)) λ _. by_pure row (h row o))))
