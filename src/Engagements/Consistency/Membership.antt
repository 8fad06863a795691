-- ===== src/Engagements/Consistency/Membership.antt =====
-- Replacing the findings of a report keeps a database consistent.
use cyber_hub_api.Engagements.Access.Laws.{find_report_at}
use cyber_hub_api.Engagements.Consistency.Drafts.{numbered_mem, new-IsIncluded, distinct_ids}
use cyber_hub_api.Engagements.Reports.Laws.{lock_report-Ensures}
use cyber_hub_api.Engagements.Schema.Laws.{
  map-update_where, select_where_mem, update_where-cases, delete_where_mem,
}
use cyber_hub_api.Engagements.Consistency.Laws.{AreConsistent-memberships}
use cyber_hub_api.Engagements.Reports.Versions.{require_linked_findings-Ensures, HasFinding}
use cyber_hub_api.Engagements.Action.Rules.{
  on_pure, after_or_raise, after_raise_if, weaken, Ensures, after,
}
use cyber_hub_api.Engagements.Access.{find_report, ReportContext}
use cyber_hub_api.Engagements.Action.Keeps.{
  Keeps-or_raise, Keeps-if, Keeps-pure, Keeps-gets, Keeps-bind, Keeps-modify, keeps_rules, Keeps,
}
use cyber_hub_api.Engagements.Reports.{set_report, report_matches, report_view, update_report}
use cyber_hub_api.Engagements.Consistency.{
  AreConsistent, finding_key, IsIncluded, FindingKey, report_key, IsConsistent, ReportKey,
}
use cyber_hub_api.Engagements.Schema.{
  update_where, select_where, ReportFinding, AuditLog, SecurityReport, Database,
}
use cyber_hub_api.Engagements.Action.{record_audit, Call, AuthPrincipal}
use cyber_hub_api.Engagements.Reports.Drafts.{
  is_misplaced, membership, reorder, numbered, set_sort_order, place_retained, insert_memberships,
  delete_memberships, replace_findings, open_draft,
}
use cyber_hub_api.Prelude.{
  mem_map, sym, map_mem, mem_append_cases, subst, map, Bool, Memᴰ, List, ℕ, String, refl, [], ◌∷◌,
  some, inl, inr, ◌≡◌,
}

pub update_report-Keys :
    (id : String) (version : ℕ) (from : List String) (now : ℕ)
    (fields : SecurityReport → SecurityReport)
    → ((r : SecurityReport) → report_key (fields r) ≡ report_key r)
    → (rows : List SecurityReport)
    → map report_key (update_where (report_matches id version from) (set_report now fields) rows)
      ≡ map report_key rows
update_report-Keys id version from now fields same rows =
    map-update_where (report_matches id version from) (set_report now fields) report_key same rows

-- Consistent, and ready for memberships of a report with the listed findings.
abbrev IsPrepared : String → ℕ → List (String × ℕ) → Database → Type 0
IsPrepared id now entries db =
    IsConsistent db
    × ((entry : String × ℕ)
        → Memᴰ entry entries
        → IsIncluded (map report_key db.reports) (map finding_key db.findings)
            (membership id now entry))

module _ (id : String) (now : ℕ) (entries : List (String × ℕ)) where
  touch_report-Keeps :
      (version : ℕ) (from : List String)
      → Keeps (IsPrepared id now entries) (update_report id version from now λ row. row)
  unfolding update_report
  touch_report-Keeps version from = Keeps-bind _ _ (Keeps-gets _) λ written.
      Keeps-bind _ _
        (Keeps-modify _ λ db h.
          let same = update_report-Keys id version from now (λ r. r) (λ r. refl) db.reports in
          (
            subst (λ ks. AreConsistent ks (map finding_key db.findings) db.memberships) (sym same)
                h.0,
            λ entry m.
                subst (λ ks. IsIncluded ks (map finding_key db.findings) (membership id now entry))
                  (sym same) (h.1 entry m),
          ))
        λ _. Keeps-pure written

  delete_memberships-Keeps :
      (report_id : String) (ids : List String)
      → Keeps (IsPrepared id now entries) (delete_memberships report_id ids)
  unfolding delete_memberships
  delete_memberships-Keeps report_id ids = Keeps-modify _ λ db h. (
    AreConsistent-memberships _ h.0
        λ m there. h.0.included m (delete_where_mem _ db.memberships there),
    h.1,
  )

  insert_memberships-Keeps :
      (test : String × ℕ → Bool)
      → Keeps (IsPrepared id now entries) (insert_memberships id now (select_where test entries))
  unfolding insert_memberships
  insert_memberships-Keeps test = Keeps-modify _ λ db h. (
    AreConsistent-memberships _ h.0 λ m there. elim (mem_append_cases db.memberships _ there) [
      | inl old ↦ h.0.included m old
      | inr new ↦
          let (entry, chosen, same) = map_mem (membership id now) _ new in
          subst (IsIncluded (map report_key db.reports) (map finding_key db.findings)) (sym same)
            (h.1 entry (select_where_mem test entries chosen).0)
    ],
    h.1,
  )

  -- A new place in the order does not change what a membership joins.
  reorder-IsIncluded :
      {reports : List ReportKey} {findings : List FindingKey} {m : ReportFinding} (n : ℕ)
      → IsIncluded reports findings m
      → IsIncluded reports findings (reorder n m)
  reorder-IsIncluded n i = record {
    report = i.report;
    finding = i.finding;
    report_row = i.report_row;
    finding_row = i.finding_row;
    of_report = i.of_report;
    of_finding = i.of_finding;
    same_assessment = i.same_assessment;
    same_employer = i.same_employer;
  }

  set_sort_order-Keeps :
      (report_id finding_id : String) (n : ℕ)
      → Keeps (IsPrepared id now entries) (set_sort_order report_id finding_id n)
  set_sort_order-Keeps report_id finding_id n = Keeps-modify _ λ db h. (
    AreConsistent-memberships _ h.0 λ m there.
        elim (update_where-cases _ (reorder n) db.memberships there) [
          | inl old ↦ h.0.included m old
          | inr w ↦
              subst (IsIncluded (map report_key db.reports) (map finding_key db.findings))
                (sym w.changed) (reorder-IsIncluded n (h.0.included w.old w.old_row))
        ],
    h.1,
  )

  place_retained-Keeps :
      (report_id : String) (current : List ReportFinding) (places : List (String × ℕ))
      → Keeps (IsPrepared id now entries) (place_retained report_id current places)
  unfolding place_retained
  place_retained-Keeps report_id current [] = Keeps-pure tt
  place_retained-Keeps report_id current (place ∷ places) =
      Keeps-bind _ _
        (Keeps-if (is_misplaced current place) _ _ (set_sort_order-Keeps report_id place.0 place.1)
          (Keeps-pure tt))
        λ _. place_retained-Keeps report_id current places

  audit-Keeps : (row : AuditLog) → Keeps (IsPrepared id now entries) (record_audit row)
  audit-Keeps row = Keeps-modify _ λ db h. h

  view-Keeps : (r : SecurityReport) → Keeps (IsPrepared id now entries) (report_view r)
  unfolding report_view
  view-Keeps r = search keeps_rules depth 30 fits 3000

open_draft-Ensures :
    (id : String) (principal : AuthPrincipal) (version : ℕ) (api_id : String) (db : Database)
    {Q : ReportContext × List String → Database → Type 0}
    → ((draft : ReportContext × List String) → find_report id db ≡ some draft.0 → Q draft db)
    → Ensures Q (open_draft id principal version api_id) db
unfolding open_draft
open_draft-Ensures id principal version api_id db h = after _ _ (
    lock_report-Ensures id principal db λ row found _ _. after_raise_if _ _ _ λ _.
      after_or_raise _ _ _
        λ allowed _. after_raise_if _ _ _ λ _. on_pure _ (h (row, allowed) found))

-- A report that was found takes memberships with linked findings.
prepared :
    (id : String) (now : ℕ) (ids : List String) (db : Database) (row : ReportContext)
    → IsConsistent db
    → find_report id db ≡ some row
    → ((f : String) → Memᴰ f ids → HasFinding db f row.report.assessment_id row.report.employer_id)
    → IsPrepared id now (numbered 0 ids) db
prepared id now ids db row h found linked = (
  h,
  λ entry m.
      let (there, same) = find_report_at id db found in
      subst
        (λ id.
          IsIncluded (map report_key db.reports) (map finding_key db.findings)
            (membership id now entry))
        same
        (new-IsIncluded (map report_key db.reports) db (report_key row.report) now (numbered 0 ids)
          (mem_map report_key db.reports there) (λ e asked. linked e.0 (numbered_mem 0 ids asked))
          (membership row.report.id now entry)
          (mem_map (membership row.report.id now) (numbered 0 ids) m)),
)

pub replace_findings-Keeps :
    (id : String) (principal : AuthPrincipal) (version : ℕ) (ids : List String) (call : Call)
    → Keeps IsConsistent (replace_findings id principal version ids call)
unfolding replace_findings
replace_findings-Keeps id principal version ids call = record {
  keeps = λ db h. after _ _ (
      open_draft-Ensures id principal version _ db λ draft found. after _ _ (
        require_linked_findings-Ensures ids _ _ db (distinct_ids db h) λ linked.
          weaken (λ _ left p. p.0)
            ((let here = numbered 0 ids in
                Keeps-bind _ _ (touch_report-Keeps id call.now here version draft.1) λ written.
                  Keeps-bind _ _ (Keeps-or_raise written _) λ updated.
                    Keeps-bind _ _ (Keeps-gets _) λ current.
                      Keeps-bind _ _ (delete_memberships-Keeps id call.now here id _) λ _.
                        Keeps-bind _ _ (insert_memberships-Keeps id call.now here _) λ _.
                          Keeps-bind _ _ (place_retained-Keeps id call.now here id current here)
                            λ _.
                              Keeps-bind _ _ (audit-Keeps id call.now here _)
                                λ _. view-Keeps id call.now here updated).keeps
              db (prepared id call.now ids db draft.0 h found linked))));
}
