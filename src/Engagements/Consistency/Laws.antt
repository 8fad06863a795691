-- ===== src/Engagements/Consistency/Laws.antt =====
-- How a change of a table keeps a database consistent.
use cyber_hub_api.Engagements.Schema.{ReportFinding}
use cyber_hub_api.Engagements.Consistency.{
  key_id, AreConsistent, IsIncluded, SameVersion, FindingKey, IsVersioned, ReportKey,
}
use mathlib.Core.List.{map-append}
use mathlib.Core.List.Memᴰ as MemD
use cyber_hub_api.Prelude.{
  IsDistinct-append, sym, IsDistinct, subst, map, mem_append_cases, includes, ◌++◌, Memᴰ, List,
  refl, [], ◌∷◌, false, inl, inr, ◌≡◌,
}

pub eq_of_single {ℓ} : {A : Type ℓ} {x y : A} → Memᴰ x (y ∷ []) → x ≡ y
eq_of_single (Memᴰ.head same) = same
eq_of_single (Memᴰ.tail m) = elim m [ ]

IsVersioned-append :
    (ks : List ReportKey) (k : ReportKey)
    → IsVersioned ks
    → ((o : ReportKey) → Memᴰ o ks → ¬ SameVersion o k)
    → IsVersioned (ks ++ k ∷ [])
IsVersioned-append [] k h fresh = (λ o m. elim m [ ], tt)
IsVersioned-append (x ∷ ks) k h fresh = (
  λ o m. elim (mem_append_cases ks (k ∷ []) m) [
    | inl old ↦ h.0 o old
    | inr new ↦ subst (λ o. ¬ SameVersion x o) (sym (eq_of_single new)) (fresh x (Memᴰ.head refl))
  ],
  IsVersioned-append ks k h.1 (λ o m. fresh o (Memᴰ.tail m)),
)

pub IsIncluded-mono :
    {reports more_reports : List ReportKey} {findings more_findings : List FindingKey}
    {m : ReportFinding}
    → ((k : ReportKey) → Memᴰ k reports → Memᴰ k more_reports)
    → ((k : FindingKey) → Memᴰ k findings → Memᴰ k more_findings)
    → IsIncluded reports findings m
    → IsIncluded more_reports more_findings m
IsIncluded-mono f g i = record {
  report = i.report;
  finding = i.finding;
  report_row = f i.report i.report_row;
  finding_row = g i.finding i.finding_row;
  of_report = i.of_report;
  of_finding = i.of_finding;
  same_assessment = i.same_assessment;
  same_employer = i.same_employer;
}

-- A finding with a new id.
pub AreConsistent-finding :
    (reports : List ReportKey) (findings : List FindingKey) (memberships : List ReportFinding)
    (k : FindingKey)
    → includes k.id (map key_id findings) ≡ false
    → AreConsistent reports findings memberships
    → AreConsistent reports (findings ++ k ∷ []) memberships
AreConsistent-finding reports findings memberships k fresh h = record {
  versioned = h.versioned;
  distinct_findings =
      subst IsDistinct (sym (map-append key_id findings (k ∷ [])))
        (IsDistinct-append (map key_id findings) k.id h.distinct_findings fresh);
  included =
      λ m there. IsIncluded-mono (λ _ n. n) (λ _ n. MemD.append_left _ n) (h.included m there);
}

-- A report with a new version, with memberships of its own.
pub AreConsistent-report :
    (reports : List ReportKey) (findings : List FindingKey) (memberships new : List ReportFinding)
    (k : ReportKey)
    → ((o : ReportKey) → Memᴰ o reports → ¬ SameVersion o k)
    → ((m : ReportFinding) → Memᴰ m new → IsIncluded (k ∷ []) findings m)
    → AreConsistent reports findings memberships
    → AreConsistent (reports ++ k ∷ []) findings (memberships ++ new)
AreConsistent-report reports findings memberships new k fresh linked h = record {
  versioned = IsVersioned-append reports k h.versioned fresh;
  distinct_findings = h.distinct_findings;
  included = λ m there. elim (mem_append_cases memberships new there) [
    | inl old ↦ IsIncluded-mono (λ _ n. MemD.append_left _ n) (λ _ n. n) (h.included m old)
    | inr added ↦ IsIncluded-mono (λ _ n. MemD.append_right reports n) (λ _ n. n) (linked m added)
  ];
}

-- Other memberships, each of them included.
pub AreConsistent-memberships :
    {reports : List ReportKey} {findings : List FindingKey} {memberships : List ReportFinding}
    (others : List ReportFinding)
    → AreConsistent reports findings memberships
    → ((m : ReportFinding) → Memᴰ m others → IsIncluded reports findings m)
    → AreConsistent reports findings others
AreConsistent-memberships others h all = record {
  versioned = h.versioned;
  distinct_findings = h.distinct_findings;
  included = all;
}
