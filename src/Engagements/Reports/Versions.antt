-- ===== src/Engagements/Reports/Versions.antt =====
-- The version numbers that reports are given, and the findings that they may include.
use cyber_hub_api.Engagements.Action.Rules.{on_pure, after_gets, after_raise_if, Ensures}
use cyber_hub_api.Engagements.Schema.Laws.{IsDistinct-select, select_where_mem, mem-select_where}
use cyber_hub_api.Engagements.Reports.{
  is_linked, max_version, linked_finding_ids, of_assessment, next_version_no, version_taken,
  require_linked_findings,
}
use cyber_hub_api.Engagements.Schema.{SecurityReport, VulnerabilityFinding, Database}
use cyber_hub_api.Prelude.{
  some_of_mem, Bool-cases, eq_iff, mem_of_includes, covers_of_length, sym, subst, ap, map_mem, ◌≤◌,
  map, ◌<◌, IsDistinct, Memᴰ, String, List, [], ◌∷◌, true, false, inl, inr, arith, ◌≡◌,
}

max_version-bound :
    (rows : List SecurityReport) {r : SecurityReport}
    → Memᴰ r rows
    → r.version_no ≤ max_version rows
max_version-bound [] m = elim m [ ]
max_version-bound (x ∷ rows) (Memᴰ.head same) =
    let here = ap (λ (r : SecurityReport). r.version_no) same in ground arith
max_version-bound (x ∷ rows) (Memᴰ.tail m) = ground (arith, max_version-bound rows m)

-- The next version is above every version of the assessment.
pub next_version_no-bound :
    (db : Database) (assessment_id : String) {r : SecurityReport}
    → Memᴰ r db.reports
    → of_assessment assessment_id r ≡ true
    → r.version_no < next_version_no db assessment_id
unfolding next_version_no
next_version_no-bound db assessment_id m own =
    let bound =
      max_version-bound _ (mem-select_where (of_assessment assessment_id) db.reports m own) in
    omega arith

-- The version number that a new report is given is above that of every report of its assessment,
-- and the constraint on version numbers never refuses it.
pub next_version_no_lem :
    (db : Database) (assessment_id : String)
    → ((r : SecurityReport)
        → Memᴰ r db.reports
        → r.assessment_id ≡ assessment_id
        → r.version_no < next_version_no db assessment_id)
      × (version_taken db assessment_id (next_version_no db assessment_id) ≡ false)
unfolding version_taken
next_version_no_lem db assessment_id = (
  λ r m own.
      next_version_no-bound db assessment_id m ((eq_iff r.assessment_id assessment_id).1 own),
  elim (Bool-cases (version_taken db assessment_id (next_version_no db assessment_id))) [
    | inr free ↦ free
    | inl taken ↦
        let (r, m, hit) = some_of_mem _ db.reports taken in
        let bound = next_version_no-bound db assessment_id m (ground arith) in absurd (ground arith)
  ],
)

-- A finding with an id, of an assessment and an employer.
pub record HasFinding (db : Database) (id assessment_id employer_id : String) : Type 0 where
  pub finding : VulnerabilityFinding
  pub finding_row : Memᴰ finding db.findings
  pub same_id : finding.id ≡ id
  pub same_assessment : finding.assessment_id ≡ assessment_id
  pub same_employer : finding.employer_id ≡ employer_id

abbrev pub finding_id : VulnerabilityFinding → String
finding_id f = f.id

linked_mem :
    (db : Database) (ids : List String) (assessment_id employer_id : String) {id : String}
    → Memᴰ id (linked_finding_ids db ids assessment_id employer_id)
    → Memᴰ id ids × HasFinding db id assessment_id employer_id
linked_mem db ids assessment_id employer_id {id} m =
    let (f, chosen, same) = map_mem finding_id _ m in
    let (row, hit) =
      select_where_mem (is_linked ids assessment_id employer_id) db.findings chosen in
    (
      subst (λ id. Memᴰ id ids) (sym same) (mem_of_includes f.id ids (ground arith)),
      record {
        finding = f;
        finding_row = row;
        same_id = sym same;
        same_assessment = (eq_iff f.assessment_id assessment_id).0 (ground arith);
        same_employer = (eq_iff f.employer_id employer_id).0 (ground arith);
      },
    )

-- Of distinct findings, all those asked for are findings of the assessment and the employer.
pub require_linked_findings-Ensures {ℓ} :
    (ids : List String) (assessment_id employer_id : String) (db : Database)
    {Q : Unit {0} → Database → Type ℓ}
    → IsDistinct (map finding_id db.findings)
    → (((id : String) → Memᴰ id ids → HasFinding db id assessment_id employer_id) → Q tt db)
    → Ensures Q (require_linked_findings ids assessment_id employer_id) db
unfolding require_linked_findings
require_linked_findings-Ensures ids assessment_id employer_id db distinct h =
    after_raise_if _ _ _ λ no_twins. after_gets _ _ (
      after_raise_if _ _ _ λ all_linked. on_pure _ (
        h λ id asked.
          (linked_mem db ids assessment_id employer_id (
            covers_of_length (linked_finding_ids db ids assessment_id employer_id) ids
              (IsDistinct-select finding_id (is_linked ids assessment_id employer_id) db.findings
                distinct)
              (λ z m. (linked_mem db ids assessment_id employer_id m).0) (ground arith) id
              asked)).1))
