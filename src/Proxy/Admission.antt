-- ===== src/Proxy/Admission.antt =====
-- internal/proxy/handler.go, ServeHTTP: the gates that an artifact passes before it is cached. A
-- gate that stops the request answers with the event that it records and the response that it
-- writes, in this order; none of them touches the cache.
pub mod Cleared
pub mod NoScanner
pub mod Refusals
use jo_ei.Prelude.{ℕ, Bool, true, false, not, List, [], ◌∷◌, Option, none, some, if◌then◌else◌}
use jo_ei.Prelude.Text.{Text}
use jo_ei.Gate.{
  PackageRef, PackageMetadata, FilterResult, ScanResult, PolicyDecision, AvResult, Event, Verdict,
  GateName, Reason, BlockedBy,
}
use jo_ei.Upstream.{Attempt, throttled, all_not_found}
use jo_ei.Proxy.Download.{Downloads, got, oversized, exhausted, download_from_upstreams}
use jo_ei.Proxy.Config.{
  HandlerConfig, MetadataAnswer, metadata, metadata_failed, Response, supply_blocked, cve_blocked,
  malware_blocked, error_response, outcome,
}

pub data Checked (A : Type 0) : Type 0 where
  refused : Event → Response → Checked A
  passed : A → Checked A

infixl 5 ◌>>=◌ ◌>>◌
abbrev pub ◌>>=◌ : {A B : Type 0} → Checked A → (A → Checked B) → Checked B
refused ev resp >>= f = refused ev resp
passed a >>= f = f a

abbrev pub ◌>>◌ : {B : Type 0} → Checked (Unit {0}) → Checked B → Checked B
m >> n = m >>= λ _. n

-- A denylisted package counts as such, any other block by the policy as a CVE block.
abbrev pub blame : Reason → BlockedBy
blame Reason.denylisted = BlockedBy.denylist
blame why = BlockedBy.cve

module _ {S : Type 0} (cfg : HandlerConfig S) (request_id : Text) (ref : PackageRef) where
  -- record and writeError with one status.
  abbrev pub fail : {A : Type 0} → GateName → Reason → ℕ → ℕ → Checked A
  fail name why status retry =
      refused (outcome request_id ref Verdict.error name why status)
        (error_response status why retry)

  -- checkSupplyChain
  unfoldable pub check_supply_chain : PackageMetadata → Checked FilterResult
  check_supply_chain meta =
      let sc = cfg.filter ref meta in
      if sc.allowed
      then passed sc
      else refused
          (record (outcome request_id ref Verdict.block GateName.supply sc.reason 423) {
            blocked_by = BlockedBy.supply_chain ∷ [];
            published_at = sc.published_at;
            block_until = sc.block_until;
          })
          (record { status = 423; body = supply_blocked sc })

  -- The answer to a failed metadata fetch: the throttle status where the mirrors were throttled,
  -- else 502.
  metadata_error : Option (ℕ × ℕ) → Checked FilterResult
  metadata_error none = fail GateName.supply Reason.upstream_metadata_unavailable 502 0
  metadata_error (some (status, retry)) =
      fail GateName.supply Reason.upstream_throttled status retry

  check_metadata : MetadataAnswer → Checked FilterResult
  check_metadata (metadata meta) = check_supply_chain meta
  check_metadata (metadata_failed none) = metadata_error none
  check_metadata (metadata_failed (some atts)) =
      metadata_error (throttled cfg.host_of cfg.throttles atts)

  unfoldable pub metadata_gate : Checked FilterResult
  unfolding metadata_error check_metadata check_supply_chain
  metadata_gate = check_metadata (cfg.fetch_metadata ref)

  decide : Option (PackageRef → ScanResult → PolicyDecision) → ScanResult → Checked (Unit {0})
  decide none result = passed tt
  decide (some evaluate) result =
      let d = evaluate ref result in
      if d.allowed
      then passed tt
      else refused
          (record (outcome request_id ref Verdict.block GateName.cve d.reason 403) {
            blocked_by = blame d.reason ∷ [];
            cves = d.findings;
          })
          (record { status = 403; body = cve_blocked d })

  scanned : Option ScanResult → Checked (Unit {0})
  scanned none = fail GateName.cve Reason.cve_scan_error 503 0
  scanned (some result) = decide cfg.policy result

  unfoldable pub cve_gate : Checked (Unit {0})
  unfolding scanned decide
  cve_gate = elim cfg.cve_scanner [ none ↦ passed tt | some scan ↦ scanned (scan ref) ]

  -- The answer when every mirror failed.
  exhausted_error : List Attempt → Option (ℕ × ℕ) → Checked (Text × Text)
  exhausted_error atts throttle =
      if all_not_found atts
      then fail GateName.supply Reason.artifact_not_found 404 0
      else elim throttle [
        | some (status, retry) ↦ fail GateName.supply Reason.upstream_throttled status retry
        | none ↦ fail GateName.supply Reason.upstream_unavailable 502 0
      ]

  fetched : Downloads → Checked (Text × Text)
  fetched (got tmp header) = passed (tmp, header)
  fetched (oversized atts) = fail GateName.cache Reason.artifact_too_large 403 0
  fetched (exhausted atts) = exhausted_error atts (throttled cfg.host_of cfg.throttles atts)

  download : List Text → Checked (Text × Text)
  download [] = fail GateName.supply Reason.no_upstream_configured 500 0
  download (u ∷ urls) = fetched (download_from_upstreams cfg.max_artifact_bytes cfg.http (u ∷ urls))

  unfoldable pub download_gate : Checked (Text × Text)
  unfolding download fetched exhausted_error
  download_gate = download cfg.upstream_urls

  malware_verdict : Option AvResult → Checked (Unit {0})
  malware_verdict none = fail GateName.malware Reason.av_scan_error 503 0
  malware_verdict (some av) =
      if av.incomplete
      then refused
          (record (outcome request_id ref Verdict.block GateName.malware Reason.scan_incomplete
            403) {
              blocked_by = BlockedBy.scan_incomplete ∷ [];
              malware_engine = av.engine;
              malware_signature = av.signature;
            })
          (error_response 403 Reason.scan_incomplete 0)
      else if av.clean
      then passed tt
      else refused
          (record (outcome request_id ref Verdict.block GateName.malware Reason.malware_found 403) {
            blocked_by = BlockedBy.malware ∷ [];
            malware_engine = av.engine;
            malware_signature = av.signature;
          })
          (record { status = 403; body = malware_blocked av.engine av.signature })

  unfoldable pub malware_gate : Text → Checked (Unit {0})
  unfolding malware_verdict
  malware_gate tmp = elim cfg.av_scanner [
    | none ↦ passed tt
    | some scan ↦ malware_verdict (scan tmp)
  ]

  -- All gates, in the order of the handler: the supply-chain check comes first, or after the
  -- download where the adapter reads the publish date off the download itself. The result is the
  -- temporary file and the filter's answer.
  unfoldable pub gates : Option (Text → PackageMetadata) → Checked (Text × FilterResult)
  gates none = do
    sc ← metadata_gate
    cve_gate
    d ← download_gate
    malware_gate d.0
    passed (d.0, sc)
  gates (some extract) = do
    cve_gate
    d ← download_gate
    sc ← check_supply_chain (extract d.1)
    malware_gate d.0
    passed (d.0, sc)

  unfoldable pub admit : Checked (Text × FilterResult)
  admit = gates cfg.extractor
