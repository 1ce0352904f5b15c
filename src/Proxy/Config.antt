-- ===== src/Proxy/Config.antt =====
-- internal/proxy/handler.go: the dependencies of the handler, its responses, and the events that it
-- records. Each external component is a function; an optional one that is nil is none. The filter
-- and the two re-check clocks already hold the reading of the clock that the request makes.
use jo_ei.Prelude.{ℕ, Bool, List, [], Option}
use jo_ei.Prelude.Text.{Text}
use jo_ei.Gate.{
  PackageRef, PackageMetadata, FilterResult, ScanResult, PolicyDecision, AvResult, Event, Verdict,
  GateName, Reason,
}
use jo_ei.Gate.Cache.{ArtifactCache}
use jo_ei.Upstream.{Attempt, ThrottleLookup}
use jo_ei.Proxy.Download.{Exchange}

-- What FetchMetadata returns: the metadata, or an error with the attempts that it carries, if any.
pub data MetadataAnswer : Type 0 where
  metadata : PackageMetadata → MetadataAnswer
  metadata_failed : Option (List Attempt) → MetadataAnswer

pub record HandlerConfig (S : Type 0) : Type 0 where
  pub fetch_metadata : PackageRef → MetadataAnswer
  pub extractor : Option (Text → PackageMetadata)
  pub upstream_urls : List Text
  pub http : Text → Exchange
  pub filter : PackageRef → PackageMetadata → FilterResult
  pub artifacts : ArtifactCache S
  pub cve_scanner : Option (PackageRef → Option ScanResult)
  pub policy : Option (PackageRef → ScanResult → PolicyDecision)
  pub av_scanner : Option (Text → Option AvResult)
  pub has_recorder : Bool
  pub cve_recheck_ttl : ℕ
  pub malware_recheck_ttl : ℕ
  pub max_artifact_bytes : ℕ
  pub throttles : Option ThrottleLookup
  pub host_of : Text → Option Text
  pub can_open : Text → Bool
  pub due_clock : ℕ
  pub run_clock : ℕ

-- What a response carries beside its status. The fields that repeat the request are left out.
pub data Body : Type 0 where
  proxy_error : Reason → ℕ → Body
  supply_blocked : FilterResult → Body
  cve_blocked : PolicyDecision → Body
  malware_blocked : Text → Text → Body
  cannot_read : Body
  artifact : Text → Body

pub record Response : Type 0 where
  pub status : ℕ
  pub body : Body

-- The body of an error response, with its Retry-After (0 for none).
abbrev pub error_response : ℕ → Reason → ℕ → Response
error_response status why retry = record { status = status; body = proxy_error why retry }

-- The event of one outcome, before the details of a block are filled in.
unfoldable pub outcome : Text → PackageRef → Verdict → GateName → Reason → ℕ → Event
outcome request_id ref verdict name why status = record {
  request_id = request_id;
  ref = ref;
  verdict = verdict;
  gate = name;
  http_status = status;
  reason = why;
  blocked_by = [];
  cves = [];
  malware_engine = [];
  malware_signature = [];
  published_at = 0;
  block_until = 0;
}
