-- ===== src/Proxy/Recheck/Outcomes.antt =====
-- What the re-checks of a cache hit decide, and what they leave in the cache.
use jo_ei.Prelude.{
  ◌≡◌, refl, ◌⊎◌, inl, inr, true, false, Option, none, some, arith, Bool-cases, Option-cases,
}
use jo_ei.Prelude.Text.{Text}
use jo_ei.Gate.{PackageRef, ScanResult, PolicyDecision, AvResult, ArtifactEntry}
use jo_ei.Proxy.Config.{HandlerConfig}
use jo_ei.Proxy.Admission.{blame}
use jo_ei.Proxy.Recheck.{
  RecheckOutcome, cve_evicted, malware_evicted, lapsed, recheck_due, cve_recheck, malware_recheck,
  after_cve, run_rechecks, recheck_expired,
}

module _ {S : Type 0} (cfg : HandlerConfig S) (ref : PackageRef) (entry : ArtifactEntry) where
  -- The store after the re-check of a gate: as before, marked, or without the entry.
  cve_store :
      (s : S)
      → ((cve_recheck cfg ref entry s).1 ≡ s)
        ⊎ ((cve_recheck cfg ref entry s).1 ≡ (cfg.artifacts.mark_cve_checked ref cfg.run_clock s).1)
        ⊎ ((cve_recheck cfg ref entry s).1 ≡ (cfg.artifacts.invalidate ref s).1)
  unfolding cve_recheck
  cve_store s = ground arith

  malware_store :
      (s : S)
      → ((malware_recheck cfg ref entry s).1 ≡ s)
        ⊎ ((malware_recheck cfg ref entry s).1
            ≡ (cfg.artifacts.mark_malware_checked ref cfg.run_clock s).1)
        ⊎ ((malware_recheck cfg ref entry s).1 ≡ (cfg.artifacts.invalidate ref s).1)
  unfolding malware_recheck
  malware_store s = ground arith

  -- The package is refused now: the scan that has to run again finds what the policy blocks.
  abbrev pub CveRefused : PolicyDecision → Type 0
  CveRefused d =
      (scan : PackageRef → Option ScanResult) × (evaluate : PackageRef
        → ScanResult
        → PolicyDecision)
      × (result : ScanResult) × (lapsed cfg.cve_recheck_ttl cfg.run_clock entry.last_cve_check
          ≡ true)
      × (cfg.cve_scanner ≡ some scan)
      × (cfg.policy ≡ some evaluate)
      × (scan ref ≡ some result)
      × (evaluate ref result ≡ d)
      × (d.allowed ≡ false)

  -- The malware scan that has to run again read the whole cached file and found malware.
  abbrev pub MalwareFound : AvResult → Type 0
  MalwareFound av =
      (scan : Text → Option AvResult) × (lapsed cfg.malware_recheck_ttl cfg.run_clock
          entry.last_malware_check
        ≡ true)
      × (cfg.av_scanner ≡ some scan)
      × (scan entry.artifact_path ≡ some av)
      × (av.incomplete ≡ false)
      × (av.clean ≡ false)

  -- The outcome of a gate with what it did to the store.
  abbrev CveEvicts : Option RecheckOutcome × S → S → Type 0
  CveEvicts res s =
      (res.0 ≡ none)
      ⊎ ((d : PolicyDecision) × (res
            ≡ (some (cve_evicted (blame d.reason) d), (cfg.artifacts.invalidate ref s).1))
          × CveRefused d)

  abbrev MalwareEvicts : Option RecheckOutcome × S → S → Type 0
  MalwareEvicts res s =
      (res.0 ≡ none)
      ⊎ ((av : AvResult) × (res ≡ (some (malware_evicted av), (cfg.artifacts.invalidate ref s).1))
          × MalwareFound av)

  cve_evicts : (s : S) → CveEvicts (cve_recheck cfg ref entry s) s
  unfolding cve_recheck
  cve_evicts s = elim (Option-cases cfg.cve_scanner) [
    | inl e ↦ inl (ground (arith, e))
    | inr (scan, e) ↦ elim (Option-cases cfg.policy) [
      | inl e' ↦ inl (ground (arith, e, e'))
      | inr (evaluate, e') ↦ elim (Option-cases (scan ref)) [
        | inl f ↦ inl (ground (arith, e, e', f))
        | inr (result, f) ↦
            elim (Bool-cases (lapsed cfg.cve_recheck_ttl cfg.run_clock entry.last_cve_check)) [
              | inr fresh ↦ inl (ground (arith, fresh))
              | inl old ↦ elim (Bool-cases (evaluate ref result).allowed) [
                | inl fine ↦ inl (ground (arith, e, e', f, fine))
                | inr bad ↦ inr (
                  evaluate ref result,
                  ground (arith, e, e', f, bad, old),
                  (scan, evaluate, result, old, e, e', f, refl, bad),
                )
              ]
            ]
      ]
    ]
  ]

  malware_evicts : (s : S) → MalwareEvicts (malware_recheck cfg ref entry s) s
  unfolding malware_recheck
  malware_evicts s = elim (Option-cases cfg.av_scanner) [
    | inl e ↦ inl (ground (arith, e))
    | inr (scan, e) ↦ elim (Option-cases (scan entry.artifact_path)) [
      | inl f ↦ inl (ground (arith, e, f))
      | inr (av, f) ↦
          elim (Bool-cases
            (lapsed cfg.malware_recheck_ttl cfg.run_clock entry.last_malware_check)) [
              | inr fresh ↦ inl (ground (arith, fresh))
              | inl old ↦ elim (Bool-cases av.incomplete) [
                | inl gave_up ↦ inl (ground (arith, e, f, gave_up))
                | inr whole ↦ elim (Bool-cases av.clean) [
                  | inl fine ↦ inl (ground (arith, e, f, whole, fine))
                  | inr bad ↦
                      inr (av, ground (arith, e, f, whole, bad, old), (scan, old, e, f, whole, bad))
                ]
              ]
            ]
    ]
  ]

  after_cve_evicts :
      (s s' : S) (out : RecheckOutcome) (res : Option RecheckOutcome × S)
      → CveEvicts res s
      → after_cve cfg ref entry res ≡ (some out, s')
      → ((d : PolicyDecision) × (out ≡ cve_evicted (blame d.reason) d)
          × CveRefused d
          × (s' ≡ (cfg.artifacts.invalidate ref s).1))
        ⊎ ((av : AvResult) × (out ≡ malware_evicted av)
            × MalwareFound av
            × (s' ≡ (cfg.artifacts.invalidate ref res.1).1))
  unfolding after_cve
  after_cve_evicts s s' out (some o, t) (inl e) h = absurd (ground (arith, e))
  after_cve_evicts s s' out (some o, t) (inr (d, e, bad)) h =
      inl (d, ground (arith, e, h), bad, ground (arith, e, h))
  after_cve_evicts s s' out (none, t) k h = elim (malware_evicts t) [
    | inl e ↦ absurd (ground (arith, e, h))
    | inr (av, e, bad) ↦ inr (av, ground (arith, e, h), bad, ground (arith, e, h))
  ]

  -- A re-check blocks a cached artifact only where a gate whose time to live has lapsed refuses it
  -- now: the policy refuses a new scan of the package, or else a complete scan of the cached file
  -- finds malware. In both cases the entry is invalidated.
  pub recheck_evicts :
      (s s' : S) (out : RecheckOutcome)
      → recheck_expired cfg ref entry s ≡ (some out, s')
      → ((d : PolicyDecision) × (out ≡ cve_evicted (blame d.reason) d)
          × CveRefused d
          × (s' ≡ (cfg.artifacts.invalidate ref s).1))
        ⊎ ((av : AvResult) × (out ≡ malware_evicted av)
            × MalwareFound av
            × (s' ≡ (cfg.artifacts.invalidate ref (cve_recheck cfg ref entry s).1).1))
  unfolding recheck_expired run_rechecks
  recheck_evicts s s' out h = elim (Bool-cases (recheck_due cfg ref entry)) [
    | inr fresh ↦ absurd (ground (arith, fresh))
    | inl due ↦
        after_cve_evicts s s' out (cve_recheck cfg ref entry s) (cve_evicts s)
          (rw (due, recheck_expired) at h)
  ]

  -- Where both scanners are configured, the CVE scanner fails, and the malware scanner fails or gives
  -- up, the re-check of a cache hit blocks nothing and leaves the store as it was, time stamps
  -- included.
  pub recheck_stale :
      (s : S) (cve_scan : PackageRef → Option ScanResult) (av_scan : Text → Option AvResult)
      → cfg.cve_scanner ≡ some cve_scan
      → cve_scan ref ≡ none
      → cfg.av_scanner ≡ some av_scan
      → (av_scan entry.artifact_path ≡ none)
        ⊎ ((av : AvResult) × (av_scan entry.artifact_path ≡ some av) × (av.incomplete ≡ true))
      → recheck_expired cfg ref entry s ≡ (none, s)
  unfolding recheck_expired run_rechecks cve_recheck malware_recheck
  recheck_stale s cve_scan av_scan e f e' (inl f') = ground (arith, e, f, e', f')
  recheck_stale s cve_scan av_scan e f e' (inr (av, f', gave_up)) =
      ground (arith, e, f, e', f', gave_up)

  -- Whatever marks and invalidations keep, the re-checks keep.
  module _ (P : S → Type 0)
      (keep_cve : (s : S) → P s → P (cfg.artifacts.mark_cve_checked ref cfg.run_clock s).1)
      (keep_malware : (s : S) → P s → P (cfg.artifacts.mark_malware_checked ref cfg.run_clock s).1)
      (keep_invalid : (s : S) → P s → P (cfg.artifacts.invalidate ref s).1) where
    cve_keeps : (s : S) → P s → P (cve_recheck cfg ref entry s).1
    cve_keeps s p = elim (cve_store s) [
      | inl e ↦ rw e p
      | inr (inl e) ↦ rw e (keep_cve s p)
      | inr (inr e) ↦ rw e (keep_invalid s p)
    ]

    malware_keeps : (s : S) → P s → P (malware_recheck cfg ref entry s).1
    malware_keeps s p = elim (malware_store s) [
      | inl e ↦ rw e p
      | inr (inl e) ↦ rw e (keep_malware s p)
      | inr (inr e) ↦ rw e (keep_invalid s p)
    ]

    after_cve_keeps :
        (res : Option RecheckOutcome × S) → P res.1 → P (after_cve cfg ref entry res).1
    unfolding after_cve
    after_cve_keeps (some out, s) p = p
    after_cve_keeps (none, s) p = malware_keeps s p

    pub recheck_keeps : (s : S) → P s → P (recheck_expired cfg ref entry s).1
    unfolding recheck_expired run_rechecks
    recheck_keeps s p = elim (Bool-cases (recheck_due cfg ref entry)) [
      | inl due ↦ rw due (after_cve_keeps (cve_recheck cfg ref entry s) (cve_keeps s p))
      | inr fresh ↦ rw fresh p
    ]
