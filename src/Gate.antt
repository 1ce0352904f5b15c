-- ===== src/Gate.antt =====
-- internal/gate: the vocabulary that every other part shares (gate.go, cache.go, recorder.go).
-- Instants are nanoseconds since the zero time of Go, so 0 is the zero time; HTTP statuses are
-- numbers; a CVSS score is counted in tenths. The reasons, verdicts and gate names, which are
-- string constants in the source, are constructors here.
pub mod Severities
pub mod Cache
use jo_ei.Prelude.{ℕ, Bool, true, false, List, ◌++◌, [], ◌∷◌, leb, if◌then◌else◌}
use jo_ei.Prelude.Text.{Text, codes, text_eq, to_upper}

pub record PackageRef : Type 0 where
  pub ecosystem : Text
  pub name : Text
  pub version : Text
  pub classifier : Text

-- ecosystem/name@version, with the classifier appended when there is one.
unfoldable pub key : PackageRef → Text
unfolding text_eq
key r =
    let base = r.ecosystem ++ (codes "/" ++ (r.name ++ (codes "@" ++ r.version))) in
    if text_eq r.classifier [] then base else base ++ (codes "?classifier=" ++ r.classifier)

pub record PackageMetadata : Type 0 where
  pub published_at : ℕ
  pub maintainer : Text
  pub license : Text

pub data Severity : Type 0 where
  unknown low medium high critical : Severity

abbrev pub rank : Severity → ℕ
rank unknown = 0
rank low = 1
rank medium = 2
rank high = 3
rank critical = 4

-- The words are compared after an upper-casing of the input.
unfoldable pub parse_upper : Text → Severity
unfolding text_eq
parse_upper s =
    if text_eq s (codes "CRITICAL")
    then critical
    else if text_eq s (codes "HIGH")
    then high
    else if text_eq s (codes "MEDIUM")
    then medium
    else if text_eq s (codes "MODERATE")
    then medium
    else if text_eq s (codes "LOW")
    then low
    else unknown

unfoldable pub parse_severity : Text → Severity
unfolding parse_upper to_upper
parse_severity s = parse_upper (to_upper s)

unfoldable pub severity_string : Severity → Text
severity_string critical = codes "CRITICAL"
severity_string high = codes "HIGH"
severity_string medium = codes "MEDIUM"
severity_string low = codes "LOW"
severity_string unknown = codes "UNKNOWN"

unfoldable pub at_least : Severity → Severity → Bool
at_least unknown threshold = false
at_least s threshold = leb (rank threshold) (rank s)

pub record CveFinding : Type 0 where
  pub id : Text
  pub aliases : List Text
  pub severity : Severity
  pub summary : Text
  pub score : ℕ

pub record ScanResult : Type 0 where
  pub clean : Bool
  pub findings : List CveFinding
  pub scan_json : Text

-- The reasons of decisions, filter results, events and error responses.
pub data Reason : Type 0 where
  ok denylisted allowlisted_bypass cve_block_disabled cve_found : Reason
  off allowlisted dry_run package_younger_than_min_age : Reason
  scan_failed cache_read_error cache_hit cache_error : Reason
  upstream_throttled upstream_metadata_unavailable upstream_unavailable : Reason
  no_upstream_configured artifact_too_large artifact_not_found : Reason
  cve_scan_error av_scan_error scan_incomplete malware_found : Reason

pub record PolicyDecision : Type 0 where
  pub allowed : Bool
  pub reason : Reason
  pub findings : List CveFinding

pub record FilterResult : Type 0 where
  pub allowed : Bool
  pub reason : Reason
  pub published_at : ℕ
  pub block_until : ℕ

pub record AvResult : Type 0 where
  pub clean : Bool
  pub signature : Text
  pub engine : Text
  pub incomplete : Bool

pub record ArtifactEntry : Type 0 where
  pub artifact_path : Text
  pub scan_clean : Bool
  pub last_cve_check : ℕ
  pub last_malware_check : ℕ

pub data Verdict : Type 0 where
  pass cache block error : Verdict

pub data GateName : Type 0 where
  cache supply cve malware image_scan : GateName

pub data BlockedBy : Type 0 where
  supply_chain cve malware denylist scan_incomplete : BlockedBy

-- One telemetry record per intercepted request, without its two clock readings (the time of the
-- outcome and the latency). Ecosystem, package and version are the fields of `ref`.
pub record Event : Type 0 where
  pub request_id : Text
  pub ref : PackageRef
  pub verdict : Verdict
  pub gate : GateName
  pub http_status : ℕ
  pub reason : Reason
  pub blocked_by : List BlockedBy
  pub cves : List CveFinding
  pub malware_engine : Text
  pub malware_signature : Text
  pub published_at : ℕ
  pub block_until : ℕ
