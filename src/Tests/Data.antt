-- ===== src/Tests/Data.antt =====
-- A small installation: one mirror, a filter, an engine, two scanners and the local cache.
use jo_ei.Prelude.{ℕ, true, false, [], ◌∷◌, ◌++◌, none, some}
use jo_ei.Prelude.Int.{pos}
use jo_ei.Prelude.Text.{Text, codes}
use jo_ei.Gate.{PackageRef, PackageMetadata, Severity, CveFinding, ScanResult, AvResult}
use jo_ei.SupplyChain.{Filter, check}
use jo_ei.Policy.Engine.{Engine, evaluate}
use jo_ei.Proxy.Download.{Exchange, answered}
use jo_ei.Proxy.Config.{HandlerConfig, metadata}
use jo_ei.Proxy.Handler.{World}
use jo_ei.Proxy.History.{Request}
use jo_ei.Cache.Local.{LocalState, local_cache}

abbrev pub lodash : PackageRef
lodash = record {
  ecosystem = codes "npm";
  name = codes "lodash";
  version = codes "4.17.21";
  classifier = [];
}

abbrev pub lodash_metadata : PackageMetadata
lodash_metadata = record { published_at = 1000; maintainer = []; license = [] }

-- 72 hours.
abbrev pub filter : Filter
filter = record {
  cfg = record { mode = codes "enforce"; min_age_hours = pos 72 };
  allowlist = codes "npm/left-pad" ∷ [];
}

abbrev pub old_enough : ℕ
old_enough = 300000000000000

abbrev pub engine : Engine
engine = record {
  block_on = Severity.high;
  cve_block = true;
  allowlist = [];
  denylist = codes "npm/event-stream@3.3.6" ∷ [];
}

abbrev pub low_finding : CveFinding
low_finding = record {
  id = codes "CVE-1";
  aliases = [];
  severity = Severity.low;
  summary = [];
  score = 20;
}

abbrev pub critical_finding : CveFinding
critical_finding = record {
  id = codes "CVE-2";
  aliases = [];
  severity = Severity.critical;
  summary = [];
  score = 98;
}

abbrev pub harmless : ScanResult
harmless = record { clean = false; findings = low_finding ∷ []; scan_json = [] }

abbrev pub harmful : ScanResult
harmful = record { clean = false; findings = low_finding ∷ critical_finding ∷ []; scan_json = [] }

abbrev pub clean_file : AvResult
clean_file = record { clean = true; signature = []; engine = codes "clamav"; incomplete = false }

abbrev pub mirror : Text
mirror = codes "https://a"

abbrev pub dead_mirror : Text
dead_mirror = codes "https://b"

abbrev pub tmp_file : Text
tmp_file = codes "/tmp/1"

abbrev pub served_file : Exchange
served_file = answered (record {
  status = 200;
  content_length = pos 10;
  header = [];
  temp_file = some tmp_file;
  body = some 10;
})

abbrev pub path_of : PackageRef → Text
path_of r = codes "/cache/" ++ r.name

abbrev pub size_of : Text → ℕ
size_of tmp = 10

abbrev pub empty_cache : LocalState
empty_cache = record { rows = []; files = []; now = old_enough; faults = [] }

abbrev pub installation : HandlerConfig LocalState
installation = record {
  fetch_metadata = λ r. metadata lodash_metadata;
  extractor = none;
  upstream_urls = mirror ∷ [];
  http = λ url. served_file;
  filter = check filter old_enough;
  artifacts = local_cache path_of size_of;
  cve_scanner = some (λ r. some harmless);
  policy = some (evaluate engine);
  av_scanner = some (λ file. some clean_file);
  has_recorder = true;
  cve_recheck_ttl = 0;
  malware_recheck_ttl = 0;
  max_artifact_bytes = 100;
  throttles = none;
  host_of = λ url. none;
  can_open = λ file. true;
  due_clock = old_enough;
  run_clock = old_enough;
}

abbrev pub start : World LocalState
start = record { store = empty_cache; events = []; responses = [] }

abbrev pub install_lodash : Request LocalState
install_lodash = record { cfg = installation; request_id = codes "r1"; ref = lodash }
