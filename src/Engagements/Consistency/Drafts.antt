-- ===== src/Engagements/Consistency/Drafts.antt =====
-- The operations on drafts keep a database consistent.
use cyber_hub_api.Engagements.Consistency.Laws.{AreConsistent-report}
use cyber_hub_api.Engagements.Access.Laws.{find_assessment_at, lock_assessment-Ensures}
use cyber_hub_api.Engagements.Action.Rules.{
  after_modify, after_gets, after_or_raise, after_raise_if, after_require, after,
}
use cyber_hub_api.Engagements.Reports.Versions.{
  require_linked_findings-Ensures, next_version_no-bound, finding_id, HasFinding,
}
use cyber_hub_api.Engagements.Action.{Call, AuthPrincipal}
use cyber_hub_api.Engagements.Action.Keeps.{keeps_rules, Keeps}
use cyber_hub_api.Engagements.Consistency.{
  IsIncluded, SameVersion, finding_key, report_key, AreConsistent, key_id, ReportKey, IsConsistent,
}
use cyber_hub_api.Engagements.Reports.{next_version_no, report_view}
use cyber_hub_api.Engagements.Reports.Drafts.{
  membership, ReportCreateInput, numbered, insert_memberships, create_report,
}
use cyber_hub_api.Engagements.Schema.{ReportFinding, SecurityReport, VulnerabilityFinding, Database}
use mathlib.Core.List.{map-append}
use cyber_hub_api.Prelude.{
  eq_iff, ◌∙◌, mem_map, sym, map_mem, suc, subst, ◌++◌, ap, Memᴰ, IsDistinct, map, String, List, ℕ,
  refl, [], ◌∷◌, arith, ◌≡◌,
}

ids_of_keys :
    (rows : List VulnerabilityFinding) → map key_id (map finding_key rows) ≡ map finding_id rows
ids_of_keys [] = refl
ids_of_keys (f ∷ rows) = ap (λ ids. f.id ∷ ids) (ids_of_keys rows)

pub distinct_ids : (db : Database) → IsConsistent db → IsDistinct (map finding_id db.findings)
distinct_ids db h = subst IsDistinct (ids_of_keys db.findings) h.distinct_findings

pub numbered_mem :
    (n : ℕ) (ids : List String) {entry : String × ℕ}
    → Memᴰ entry (numbered n ids)
    → Memᴰ entry.0 ids
numbered_mem n [] m = elim m [ ]
numbered_mem n (id ∷ ids) (Memᴰ.head same) = Memᴰ.head (ap (λ (e : String × ℕ). e.0) same)
numbered_mem n (id ∷ ids) (Memᴰ.tail m) = Memᴰ.tail (numbered_mem (suc n) ids m)

-- New memberships of a report with findings of its assessment and employer.
pub new-IsIncluded :
    (reports : List ReportKey) (db : Database) (k : ReportKey) (now : ℕ)
    (entries : List (String × ℕ))
    → Memᴰ k reports
    → ((entry : String × ℕ)
        → Memᴰ entry entries
        → HasFinding db entry.0 k.assessment_id k.employer_id)
    → (m : ReportFinding) → Memᴰ m (map (membership k.id now) entries)
    → IsIncluded reports (map finding_key db.findings) m
new-IsIncluded reports db k now entries row linked m there =
    let (entry, asked, same) = map_mem (membership k.id now) entries there in
    let f = linked entry asked in
    subst (IsIncluded reports (map finding_key db.findings)) (sym same) (record {
      report = k;
      finding = finding_key f.finding;
      report_row = row;
      finding_row = mem_map finding_key db.findings f.finding_row;
      of_report = refl;
      of_finding = f.same_id;
      same_assessment = sym f.same_assessment;
      same_employer = sym f.same_employer;
    })

new_version :
    (db : Database) (assessment_id : String) (k : ReportKey)
    → k.assessment_id ≡ assessment_id
    → k.version_no ≡ next_version_no db assessment_id
    → (o : ReportKey) → Memᴰ o (map report_key db.reports)
    → ¬ SameVersion o k
new_version db assessment_id k own numbered_next o m same =
    let (r, there, key) = map_mem report_key db.reports m in
    let owner : r.assessment_id ≡ assessment_id =
      ap (λ (o : ReportKey). o.assessment_id) (sym key) ∙ same.0 ∙ own in
    let version : r.version_no ≡ next_version_no db assessment_id =
      ap (λ (o : ReportKey). o.version_no) (sym key) ∙ same.1 ∙ numbered_next in
    let below =
      next_version_no-bound db assessment_id there
        ((eq_iff r.assessment_id assessment_id).1 owner) in
    omega arith

pub report_view-Keeps : (r : SecurityReport) → Keeps IsConsistent (report_view r)
unfolding report_view
report_view-Keeps r = search keeps_rules depth 30 fits 3000

-- The database with one more report and its memberships.
with_report :
    (db : Database) (k : SecurityReport) (memberships : List ReportFinding)
    → AreConsistent
        (map report_key db.reports ++ report_key k ∷ [])
        (map finding_key db.findings)
        memberships
    → AreConsistent
        (map report_key (db.reports ++ k ∷ []))
        (map finding_key db.findings)
        memberships
with_report db k memberships h =
    subst (λ ks. AreConsistent ks (map finding_key db.findings) memberships)
      (sym (map-append report_key db.reports (k ∷ []))) h

pub create_report-Keeps :
    (assessment_id : String) (principal : AuthPrincipal) (input : ReportCreateInput) (call : Call)
    → Keeps IsConsistent (create_report assessment_id principal input call)
unfolding create_report insert_memberships
create_report-Keeps assessment_id principal input call = record {
  keeps = λ db h. after _ _ (
      lock_assessment-Ensures assessment_id db λ row found. after_require _ _ λ _.
        after_raise_if _ _ _ λ _. after _ _ (
          require_linked_findings-Ensures _ _ _ db (distinct_ids db h) λ linked.
            after_or_raise _ _ _ λ step _. after_gets _ _ (
              after_gets _ _ (
                after_raise_if _ _ _ λ _. after_modify _ _ (
                  after_modify _ _ (
                    after_modify _ _ (
                      let key : ReportKey = record {
                        id = call.new_id;
                        assessment_id = assessment_id;
                        employer_id = row.assessment.employer_id;
                        version_no = next_version_no db assessment_id;
                      } in
                      (report_view-Keeps _).keeps _ (
                        with_report db _ _ (
                          AreConsistent-report _ _ _ _ key
                            (new_version db assessment_id key refl refl)
                            (new-IsIncluded (key ∷ []) db key call.now
                              (numbered 0 input.finding_ids) (Memᴰ.head refl)
                              λ entry asked.
                                subst (λ a. HasFinding db entry.0 a row.assessment.employer_id)
                                  (find_assessment_at assessment_id db found)
                                  (linked entry.0 (numbered_mem 0 input.finding_ids asked)))
                            h)))))))));
}
