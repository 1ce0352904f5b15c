-- ===== src/Policy/Engine.antt =====
-- internal/policy/engine.go: the decision of one package against the deny list, the allow list and
-- the severity threshold. A map from entries to true is the list of its keys.
pub mod Decisions
use jo_ei.Prelude.{
  Bool, true, false, not, ◌&&◌, ◌||◌, List, [], ◌∷◌, ◌++◌, map, keep, any, if◌then◌else◌,
}
use jo_ei.Prelude.Text.{Text, codes, text_eq, contains, trim_space}
use jo_ei.Gate.{
  Severity, CveFinding, PackageRef, PolicyDecision, Reason, ScanResult, at_least, parse_severity,
}

-- The part of the CVE configuration that the engine reads.
pub record CveConfig : Type 0 where
  pub block_on : Text

pub record PolicyProfile : Type 0 where
  pub cve_block : Bool
  pub cve_min_severity : Text
  pub supply_chain_block : Bool
  pub malware_block : Bool
  pub allowlist : List Text
  pub denylist : List Text

pub record Engine : Type 0 where
  pub block_on : Severity
  pub cve_block : Bool
  pub allowlist : List Text
  pub denylist : List Text

unfoldable pub build_index : List Text → List Text
build_index = map trim_space

unfoldable pub by_name : PackageRef → Text
by_name r = r.ecosystem ++ (codes "/" ++ r.name)

unfoldable pub by_version : PackageRef → Text
by_version r = by_name r ++ (codes "@" ++ r.version)

unfoldable pub matches_index : List Text → PackageRef → Bool
matches_index idx r = contains idx (by_name r) || contains idx (by_version r)

unfoldable pub new_engine : CveConfig → PolicyProfile → Engine
new_engine cfg profile = record {
  block_on =
      parse_severity
        (if text_eq profile.cve_min_severity [] then cfg.block_on else profile.cve_min_severity);
  cve_block = profile.cve_block;
  allowlist = build_index profile.allowlist;
  denylist = build_index profile.denylist;
}

-- The loop that collects the findings at or above the threshold.
unfoldable pub blocking : Severity → List CveFinding → List CveFinding
blocking t = keep (λ f. at_least f.severity t)

abbrev allow : Reason → PolicyDecision
allow why = record { allowed = true; reason = why; findings = [] }

abbrev decide_findings : List CveFinding → PolicyDecision
decide_findings [] = allow Reason.ok
decide_findings (f ∷ fs) = record { allowed = false; reason = Reason.cve_found; findings = f ∷ fs }

unfoldable pub evaluate : Engine → PackageRef → ScanResult → PolicyDecision
evaluate e r result =
    if matches_index e.denylist r
    then record { allowed = false; reason = Reason.denylisted; findings = [] }
    else if matches_index e.allowlist r
    then allow Reason.allowlisted_bypass
    else if not e.cve_block
    then allow Reason.cve_block_disabled
    else decide_findings (blocking e.block_on result.findings)
