-- ===== src/Engagements/Consistency.antt =====
-- What the reports, findings and memberships of a database have to agree on, over the columns that
-- no operation changes.
pub mod Laws
pub mod Work
pub mod Drafts
pub mod Membership
pub mod Review
pub mod Reachable
use cyber_hub_api.Engagements.Schema.{ReportFinding, VulnerabilityFinding, Database, SecurityReport}
use cyber_hub_api.Prelude.{
  IsDistinct, Memᴰ, map, List, String, ℕ, [], ◌∷◌, none, some, true, false, refl, inl, inr, arith,
  ◌≡◌,
}

pub record ReportKey : Type 0 where
  pub id : String
  pub assessment_id : String
  pub employer_id : String
  pub version_no : ℕ

pub record FindingKey : Type 0 where
  pub id : String
  pub assessment_id : String
  pub employer_id : String

abbrev pub report_key : SecurityReport → ReportKey
report_key r = record {
  id = r.id;
  assessment_id = r.assessment_id;
  employer_id = r.employer_id;
  version_no = r.version_no;
}

abbrev pub finding_key : VulnerabilityFinding → FindingKey
finding_key f = record { id = f.id; assessment_id = f.assessment_id; employer_id = f.employer_id }

abbrev pub key_id : FindingKey → String
key_id k = k.id

abbrev pub SameVersion : ReportKey → ReportKey → Type 0
SameVersion k o = (k.assessment_id ≡ o.assessment_id) × (k.version_no ≡ o.version_no)

-- No two reports of an assessment have one version number.
abbrev pub IsVersioned : List ReportKey → Type 0
IsVersioned [] = Unit
IsVersioned (k ∷ ks) = ((o : ReportKey) → Memᴰ o ks → ¬ SameVersion k o) × IsVersioned ks

-- A membership joins a report and a finding of one assessment and one employer.
pub record IsIncluded (reports : List ReportKey) (findings : List FindingKey) (m : ReportFinding)
    : Type 0 where
  pub report : ReportKey
  pub finding : FindingKey
  pub report_row : Memᴰ report reports
  pub finding_row : Memᴰ finding findings
  pub of_report : report.id ≡ m.report_id
  pub of_finding : finding.id ≡ m.finding_id
  pub same_assessment : report.assessment_id ≡ finding.assessment_id
  pub same_employer : report.employer_id ≡ finding.employer_id

pub record AreConsistent (reports : List ReportKey) (findings : List FindingKey)
    (memberships : List ReportFinding) : Type 0 where
  pub versioned : IsVersioned reports
  pub distinct_findings : IsDistinct (map key_id findings)
  pub included : (m : ReportFinding) → Memᴰ m memberships → IsIncluded reports findings m

abbrev pub IsConsistent : Database → Type 0
IsConsistent db =
    AreConsistent (map report_key db.reports) (map finding_key db.findings) db.memberships
