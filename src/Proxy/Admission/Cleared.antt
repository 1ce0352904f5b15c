-- ===== src/Proxy/Admission/Cleared.antt =====
-- What an admitted artifact has passed.
use jo_ei.Prelude.{
  ◌≡◌, ◌↔◌, refl, ◌⊎◌, inl, inr, true, false, List, Option, none, some, arith, Option-cases, ◌∙◌,
  ap, some_inj,
}
use jo_ei.Prelude.Text.{Text}
use jo_ei.Gate.{PackageRef, PackageMetadata, FilterResult, ScanResult, PolicyDecision, AvResult}
use jo_ei.Upstream.{Attempt}
use jo_ei.Proxy.Download.{got, download_from_upstreams}
use jo_ei.Proxy.Config.{HandlerConfig, MetadataAnswer, metadata, metadata_failed}
use jo_ei.Proxy.Admission.{
  Checked, refused, passed, ◌>>=◌, ◌>>◌, check_supply_chain, metadata_gate, cve_gate, download_gate,
  malware_gate, gates, admit,
}

module _ {S : Type 0} (cfg : HandlerConfig S) (ref : PackageRef) where
  -- The metadata that the supply-chain filter was asked about: fetched beforehand, or read off the
  -- header of the download.
  abbrev pub MetadataOf : Text → PackageMetadata → Type 0
  MetadataOf header meta =
      ((cfg.extractor ≡ none) × (cfg.fetch_metadata ref ≡ metadata meta))
      ⊎ ((extract : Text → PackageMetadata) × (cfg.extractor ≡ some extract)
          × (extract header ≡ meta))

  -- No CVE scanner is configured, or it scanned the package and the policy, if any, allows it.
  abbrev pub CveCleared : Type 0
  CveCleared =
      (cfg.cve_scanner ≡ none)
      ⊎ ((scan : PackageRef → Option ScanResult) × (result : ScanResult) × (cfg.cve_scanner
            ≡ some scan)
          × (scan ref ≡ some result)
          × ((cfg.policy ≡ none)
              ⊎ ((evaluate : PackageRef → ScanResult → PolicyDecision) × (cfg.policy
                    ≡ some evaluate)
                  × ((evaluate ref result).allowed ≡ true))))

  -- No malware scanner is configured, or it scanned the file in full and found nothing.
  abbrev pub MalwareCleared : Text → Type 0
  MalwareCleared tmp =
      (cfg.av_scanner ≡ none)
      ⊎ ((scan : Text → Option AvResult) × (av : AvResult) × (cfg.av_scanner ≡ some scan)
          × (scan tmp ≡ some av)
          × (av.incomplete ≡ false)
          × (av.clean ≡ true))

  -- Every gate: the file was downloaded from a configured mirror, the filter allows its
  -- metadata with the answer `sc`, and both scans clear it.
  abbrev pub Admitted : Text → FilterResult → Type 0
  Admitted tmp sc =
      (header : Text) × (meta : PackageMetadata) × (download_from_upstreams cfg.max_artifact_bytes
          cfg.http cfg.upstream_urls
        ≡ got tmp header)
      × MetadataOf header meta
      × (cfg.filter ref meta ≡ sc)
      × (sc.allowed ≡ true)
      × CveCleared
      × MalwareCleared tmp

MetadataAnswer-cases :
    (m : MetadataAnswer)
    → ((meta : PackageMetadata) × (m ≡ metadata meta))
      ⊎ ((atts : Option (List Attempt)) × (m ≡ metadata_failed atts))
MetadataAnswer-cases (metadata meta) = inl (meta, refl)
MetadataAnswer-cases (metadata_failed atts) = inr (atts, refl)

-- A chain of gates passes exactly if each gate does.
>>=-passed :
    {A B : Type 0} (m : Checked A) (f : A → Checked B) (b : B)
    → (m >>= f) ≡ passed b
    → (a : A) × (m ≡ passed a) × (f a ≡ passed b)
>>=-passed (refused ev resp) f b h = absurd (ground arith)
>>=-passed (passed a) f b h = (a, refl, h)

passed->>= :
    {A B : Type 0} (m : Checked A) (f : A → Checked B) (a : A) (b : B)
    → m ≡ passed a
    → f a ≡ passed b
    → (m >>= f) ≡ passed b
passed->>= m f a b h k = rw h k

module _ {S : Type 0} (cfg : HandlerConfig S) (request_id : Text) (ref : PackageRef) where
  supply_passed :
      (meta : PackageMetadata) (sc : FilterResult)
      → check_supply_chain cfg request_id ref meta ≡ passed sc
      → (cfg.filter ref meta ≡ sc) × (sc.allowed ≡ true)
  unfolding check_supply_chain
  supply_passed meta sc h = ground arith

  metadata_passed :
      (sc : FilterResult)
      → metadata_gate cfg request_id ref ≡ passed sc
      → (meta : PackageMetadata) × (cfg.fetch_metadata ref ≡ metadata meta)
        × (cfg.filter ref meta ≡ sc)
        × (sc.allowed ≡ true)
  unfolding metadata_gate
  metadata_passed sc h = elim (MetadataAnswer-cases (cfg.fetch_metadata ref)) [
    | inl (meta, e) ↦ (meta, e, ground (arith, e), ground (arith, e))
    | inr (atts, e) ↦ absurd (ground (arith, e))
  ]

  cve_passed : cve_gate cfg request_id ref ≡ passed tt → CveCleared cfg ref
  unfolding cve_gate
  cve_passed h = elim (Option-cases cfg.cve_scanner) [
    | inl e ↦ inl e
    | inr (scan, e) ↦ elim (Option-cases (scan ref)) [
      | inl failed ↦ absurd (ground (arith, e, failed))
      | inr (result, e') ↦ elim (Option-cases cfg.policy) [
        | inl free ↦ inr (scan, result, e, e', inl free)
        | inr (evaluate, p) ↦ inr (scan, result, e, e', inr (evaluate, p, ground (arith, e, e', p)))
      ]
    ]
  ]

  download_passed :
      (tmp header : Text)
      → download_gate cfg request_id ref ≡ passed (tmp, header)
      → download_from_upstreams cfg.max_artifact_bytes cfg.http cfg.upstream_urls ≡ got tmp header
  unfolding download_gate
  download_passed tmp header h = ground arith

  malware_passed :
      (tmp : Text) → malware_gate cfg request_id ref tmp ≡ passed tt → MalwareCleared cfg ref tmp
  unfolding malware_gate
  malware_passed tmp h = elim (Option-cases cfg.av_scanner) [
    | inl e ↦ inl e
    | inr (scan, e) ↦ elim (Option-cases (scan tmp)) [
      | inl failed ↦ absurd (ground (arith, e, failed))
      | inr (av, e') ↦ inr (scan, av, e, e', ground (arith, e, e'), ground (arith, e, e'))
    ]
  ]

  passed_supply :
      (meta : PackageMetadata) (sc : FilterResult)
      → cfg.filter ref meta ≡ sc
      → sc.allowed ≡ true
      → check_supply_chain cfg request_id ref meta ≡ passed sc
  unfolding check_supply_chain
  passed_supply meta sc e h = ground arith

  passed_metadata :
      (meta : PackageMetadata) (sc : FilterResult)
      → cfg.fetch_metadata ref ≡ metadata meta
      → cfg.filter ref meta ≡ sc
      → sc.allowed ≡ true
      → metadata_gate cfg request_id ref ≡ passed sc
  unfolding metadata_gate
  passed_metadata meta sc m e h = ground arith

  passed_cve : CveCleared cfg ref → cve_gate cfg request_id ref ≡ passed tt
  unfolding cve_gate
  passed_cve (inl e) = ground arith
  passed_cve (inr (scan, result, e, e', inl free)) = ground arith
  passed_cve (inr (scan, result, e, e', inr (evaluate, p, h))) = ground arith

  passed_download :
      (tmp header : Text)
      → download_from_upstreams cfg.max_artifact_bytes cfg.http cfg.upstream_urls ≡ got tmp header
      → download_gate cfg request_id ref ≡ passed (tmp, header)
  unfolding download_gate download_from_upstreams
  passed_download tmp header h = ground arith

  passed_malware :
      (tmp : Text) → MalwareCleared cfg ref tmp → malware_gate cfg request_id ref tmp ≡ passed tt
  unfolding malware_gate
  passed_malware tmp (inl e) = ground arith
  passed_malware tmp (inr (scan, av, e, e', i, c)) = ground arith

  -- What the gates have checked when they let a file through, for either order.
  abbrev Through : Option (Text → PackageMetadata) → Text → FilterResult → Type 0
  Through ex tmp sc =
      (header : Text) × (meta : PackageMetadata) × (download_from_upstreams cfg.max_artifact_bytes
          cfg.http cfg.upstream_urls
        ≡ got tmp header)
      × (((ex ≡ none) × (cfg.fetch_metadata ref ≡ metadata meta))
          ⊎ ((extract : Text → PackageMetadata) × (ex ≡ some extract) × (extract header ≡ meta)))
      × (cfg.filter ref meta ≡ sc)
      × (sc.allowed ≡ true)
      × CveCleared cfg ref
      × MalwareCleared cfg ref tmp

  gates-Through :
      (ex : Option (Text → PackageMetadata)) (tmp : Text) (sc : FilterResult)
      → gates cfg request_id ref ex ≡ passed (tmp, sc)
      → Through ex tmp sc
  unfolding gates
  gates-Through none tmp sc h =
      let (sc', m, h1) = >>=-passed (metadata_gate cfg request_id ref) _ (tmp, sc) h in
      let (u, c, h2) = >>=-passed (cve_gate cfg request_id ref) _ (tmp, sc) h1 in
      let (d, g, h3) = >>=-passed (download_gate cfg request_id ref) (scan_then sc') (tmp, sc) h2 in
      let (v, w, h4) =
        >>=-passed (malware_gate cfg request_id ref d.0) (λ _. passed (d.0, sc')) (tmp, sc) h3 in
      let same_file : d.0 ≡ tmp = ground arith in
      let same_result : sc' ≡ sc = ground arith in
      let (meta, fm, f, ok) = metadata_passed sc' m in
      (
        d.1,
        meta,
        rw (← same_file) (download_passed d.0 d.1 g),
        inl (refl, fm),
        f ∙ same_result,
        rw (← same_result) ok,
        cve_passed c,
        rw (← same_file) (malware_passed d.0 w),
      )
    where
      scan_then : FilterResult → Text × Text → Checked (Text × FilterResult)
      scan_then r d = malware_gate cfg request_id ref d.0 >> passed (d.0, r)
  gates-Through (some extract) tmp sc h =
      let (u, c, h1) = >>=-passed (cve_gate cfg request_id ref) _ (tmp, sc) h in
      let (d, g, h2) = >>=-passed (download_gate cfg request_id ref) check_then (tmp, sc) h1 in
      let (sc', k, h3) =
        >>=-passed (check_supply_chain cfg request_id ref (extract d.1)) (scan_then d) (tmp, sc)
          h2 in
      let (v, w, h4) =
        >>=-passed (malware_gate cfg request_id ref d.0) (λ _. passed (d.0, sc')) (tmp, sc) h3 in
      let same_file : d.0 ≡ tmp = ground arith in
      let same_result : sc' ≡ sc = ground arith in
      let (f, ok) = supply_passed (extract d.1) sc' k in
      (
        d.1,
        extract d.1,
        rw (← same_file) (download_passed d.0 d.1 g),
        inr (extract, refl, refl),
        f ∙ same_result,
        rw (← same_result) ok,
        cve_passed c,
        rw (← same_file) (malware_passed d.0 w),
      )
    where
      scan_then : Text × Text → FilterResult → Checked (Text × FilterResult)
      scan_then d r = malware_gate cfg request_id ref d.0 >> passed (d.0, r)

      check_then : Text × Text → Checked (Text × FilterResult)
      check_then d = check_supply_chain cfg request_id ref (extract d.1) >>= scan_then d

  Through-gates :
      (ex : Option (Text → PackageMetadata)) (tmp : Text) (sc : FilterResult)
      → Through ex tmp sc
      → gates cfg request_id ref ex ≡ passed (tmp, sc)
  unfolding gates
  Through-gates none tmp sc (header, meta, dl, inr (extract, e, x), f, ok, c, m) =
      absurd (ground arith)
  Through-gates none tmp sc (header, meta, dl, inl (e, fm), f, ok, c, m) =
      passed->>= _ _ sc _ (passed_metadata meta sc fm f ok) (
        passed->>= _ _ tt _ (passed_cve c) (
          passed->>= _ _ (tmp, header) _ (passed_download tmp header dl)
            (passed->>= _ _ tt _ (passed_malware tmp m) refl)))
  Through-gates (some extract) tmp sc (header, meta, dl, inl (e, fm), f, ok, c, m) =
      absurd (ground arith)
  Through-gates (some extract) tmp sc (header, meta, dl, inr (extract', e, x), f, ok, c, m) =
      passed->>= _ _ tt _ (passed_cve c) (
        passed->>= _ _ (tmp, header) _ (passed_download tmp header dl)
          (passed->>= _ _ sc _
            (passed_supply (extract header) sc (rw (ap (λ g. g header) (some_inj e)) (rw x f)) ok)
            (passed->>= _ _ tt _ (passed_malware tmp m) refl)))

  -- An artifact is admitted exactly when it passes every configured gate: it was downloaded from
  -- one of the mirrors, the supply-chain filter allows its metadata, the CVE scan and the policy
  -- clear it, and the malware scan of the file is complete and clean.
  pub admit_iff :
      (tmp : Text) (sc : FilterResult)
      → (admit cfg request_id ref ≡ passed (tmp, sc)) ↔ Admitted cfg ref tmp sc
  unfolding admit
  admit_iff tmp sc = (gates-Through cfg.extractor tmp sc, Through-gates cfg.extractor tmp sc)
