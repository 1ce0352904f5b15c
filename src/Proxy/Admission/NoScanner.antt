-- ===== src/Proxy/Admission/NoScanner.antt =====
-- The gates without a CVE scanner.
use jo_ei.Prelude.{◌≡◌, Option, none, some}
use jo_ei.Prelude.Text.{Text}
use jo_ei.Gate.{PackageRef, PackageMetadata, ScanResult, PolicyDecision}
use jo_ei.Proxy.Config.{HandlerConfig}
use jo_ei.Proxy.Admission.{
  metadata_gate, cve_gate, download_gate, malware_gate, check_supply_chain, gates, admit,
}

module _ {S : Type 0} (cfg : HandlerConfig S) (request_id : Text) (ref : PackageRef) where
  abbrev ruled : Option (PackageRef → ScanResult → PolicyDecision) → HandlerConfig S
  ruled policy = record cfg { policy = policy }

  open_gate :
      (policy : Option (PackageRef → ScanResult → PolicyDecision))
      → cfg.cve_scanner ≡ none
      → cve_gate (ruled policy) request_id ref ≡ cve_gate cfg request_id ref
  unfolding cve_gate
  open_gate policy off = rw off

  same_gates :
      (policy : Option (PackageRef → ScanResult → PolicyDecision))
      (ex : Option (Text → PackageMetadata))
      → cfg.cve_scanner ≡ none
      → gates (ruled policy) request_id ref ex ≡ gates cfg request_id ref ex
  unfolding gates metadata_gate download_gate malware_gate check_supply_chain
  same_gates policy none off = rw (open_gate policy off)
  same_gates policy (some extract) off = rw (open_gate policy off)

  -- Without a CVE scanner the policy is not consulted: whatever its lists say, a request meets the
  -- same gates with the same outcome.
  pub unscanned_ignores_policy :
      (policy : Option (PackageRef → ScanResult → PolicyDecision))
      → cfg.cve_scanner ≡ none
      → admit (record cfg { policy = policy }) request_id ref ≡ admit cfg request_id ref
  unfolding admit
  unscanned_ignores_policy policy off = same_gates policy cfg.extractor off
