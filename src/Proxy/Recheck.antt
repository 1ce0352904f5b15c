-- ===== src/Proxy/Recheck.antt =====
-- internal/proxy/handler.go: the lazy re-checks of a cache hit. Each gate whose time to live has
-- lapsed runs again; a block evicts the entry, a pass moves the gate's time stamp, and a scanner
-- that fails or gives up changes nothing. One flight serves the requests that wait for it, so its
-- outcome is a value that each of them answers with.
pub mod Outcomes
use jo_ei.Prelude.{ℕ, Bool, true, false, ◌&&◌, ◌||◌, Option, none, some, ltb, if◌then◌else◌}
use jo_ei.Prelude.Int.{pos, sub_sat, ltb_ℤ}
use jo_ei.Prelude.Text.{Text}
use jo_ei.Gate.{PackageRef, ScanResult, PolicyDecision, AvResult, ArtifactEntry, BlockedBy}
use jo_ei.Proxy.Config.{HandlerConfig}
use jo_ei.Proxy.Admission.{blame}

pub data RecheckOutcome : Type 0 where
  cve_evicted : BlockedBy → PolicyDecision → RecheckOutcome
  malware_evicted : AvResult → RecheckOutcome

-- The time to live is set, and has lapsed since the last check.
unfoldable pub lapsed : ℕ → ℕ → ℕ → Bool
lapsed ttl now last = ltb 0 ttl && ltb_ℤ (pos ttl) (sub_sat now last)

abbrev is_some : {A : Type 0} → Option A → Bool
is_some none = false
is_some (some a) = true

module _ {S : Type 0} (cfg : HandlerConfig S) (ref : PackageRef) (entry : ArtifactEntry) where
  unfoldable pub recheck_due : Bool
  recheck_due =
      (lapsed cfg.cve_recheck_ttl cfg.due_clock entry.last_cve_check
        && is_some cfg.cve_scanner
        && is_some cfg.policy)
      || (lapsed cfg.malware_recheck_ttl cfg.due_clock entry.last_malware_check
          && is_some cfg.av_scanner)

  cve_result :
      (PackageRef → ScanResult → PolicyDecision) → Option ScanResult → S → Option RecheckOutcome × S
  cve_result evaluate none s = (none, s)
  cve_result evaluate (some result) s =
      let d = evaluate ref result in
      if d.allowed
      then (none, (cfg.artifacts.mark_cve_checked ref cfg.run_clock s).1)
      else (some (cve_evicted (blame d.reason) d), (cfg.artifacts.invalidate ref s).1)

  unfoldable pub cve_recheck : S → Option RecheckOutcome × S
  unfolding cve_result
  cve_recheck s =
      if lapsed cfg.cve_recheck_ttl cfg.run_clock entry.last_cve_check
      then elim cfg.cve_scanner [
        | none ↦ (none, s)
        | some scan ↦ elim cfg.policy [
          | none ↦ (none, s)
          | some evaluate ↦ cve_result evaluate (scan ref) s
        ]
      ]
      else (none, s)

  malware_result : Option AvResult → S → Option RecheckOutcome × S
  malware_result none s = (none, s)
  malware_result (some av) s =
      if av.incomplete
      then (none, s)
      else if av.clean
      then (none, (cfg.artifacts.mark_malware_checked ref cfg.run_clock s).1)
      else (some (malware_evicted av), (cfg.artifacts.invalidate ref s).1)

  unfoldable pub malware_recheck : S → Option RecheckOutcome × S
  unfolding malware_result
  malware_recheck s =
      if lapsed cfg.malware_recheck_ttl cfg.run_clock entry.last_malware_check
      then elim cfg.av_scanner [
        | none ↦ (none, s)
        | some scan ↦ malware_result (scan entry.artifact_path) s
      ]
      else (none, s)

  after_cve : Option RecheckOutcome × S → Option RecheckOutcome × S
  after_cve (some out, s) = (some out, s)
  after_cve (none, s) = malware_recheck s

  -- runRechecks: the CVE gate first, then the malware gate over the cached file.
  unfoldable pub run_rechecks : S → Option RecheckOutcome × S
  unfolding after_cve
  run_rechecks s = after_cve (cve_recheck s)

  -- The flight of a cache hit: nothing to do while every time stamp is fresh.
  unfoldable pub recheck_expired : S → Option RecheckOutcome × S
  recheck_expired s = if recheck_due then run_rechecks s else (none, s)
