-- ===== src/Proxy/Handler/Safety.antt =====
-- Nothing reaches a client but what every configured gate let through.
use jo_ei.Prelude.{
  ℕ, ◌≡◌, refl, sym, ap, ◌∙◌, ◌⊎◌, inl, inr, Bool, true, false, [], ◌∷◌, ◌++◌, Option, none, some,
  Bool-cases,
}
use mathlib.Core.Path.{subst}
use jo_ei.Prelude.Text.{Text}
use jo_ei.Gate.{PackageRef, FilterResult, ArtifactEntry, Event}
use jo_ei.Gate.Cache.{ArtifactCache, CacheLaws}
use jo_ei.Proxy.Config.{HandlerConfig, Response}
use jo_ei.Proxy.Admission.{Checked, refused, passed, admit}
use jo_ei.Proxy.Admission.Cleared.{Admitted, admit_iff}
use jo_ei.Proxy.Admission.Refusals.{admit-IsRefusal, is_artifact}
use jo_ei.Proxy.Recheck.Outcomes.{recheck_keeps}
use jo_ei.Proxy.Recheck.{RecheckOutcome, cve_evicted, malware_evicted, recheck_expired}
use jo_ei.Proxy.Handler.{
  World, emit, serve_from_cache, answer_evicted, serve_hit, store_and_serve, serve_admitted,
  serve_download, answer_rechecked, serve_stored, serve_put, cache_error, serve_looked_up,
}

module _ {S : Type 0} {cache : ArtifactCache S} (laws : CacheLaws cache)
    (Passed : PackageRef → Type 0) where
  -- Every entry of the store is clean, and its package satisfies the predicate.
  abbrev pub IsVetted : S → Type 0
  IsVetted s =
      (q : PackageRef) (e : ArtifactEntry) → laws.Stored q e s → (e.scan_clean ≡ true) × Passed q

  get-IsVetted : (r : PackageRef) (s : S) → IsVetted s → IsVetted (cache.get r s).1
  get-IsVetted r s h q e st = h q e (laws.get-Stored r q s e st)

  put-IsVetted :
      (r : PackageRef) (tmp : Text) (s : S)
      → Passed r
      → IsVetted s
      → IsVetted (cache.put r tmp true s).1
  put-IsVetted r tmp s p h q e st = elim (laws.put-Stored r q tmp true s e st) [
    | inl old ↦ h q e old
    | inr (same, clean) ↦ (clean, subst Passed (sym same) p)
  ]

  invalidate-IsVetted : (r : PackageRef) (s : S) → IsVetted s → IsVetted (cache.invalidate r s).1
  invalidate-IsVetted r s h q e st = h q e (laws.invalidate-Stored r q s e st)

  mark_cve-IsVetted :
      (r : PackageRef) (t : ℕ) (s : S) → IsVetted s → IsVetted (cache.mark_cve_checked r t s).1
  mark_cve-IsVetted r t s h q e st =
      let (f, old, same) = laws.mark_cve-Stored r q t s e st in
      (same.1 ∙ (h q f old).0, (h q f old).1)

  mark_malware-IsVetted :
      (r : PackageRef) (t : ℕ) (s : S) → IsVetted s → IsVetted (cache.mark_malware_checked r t s).1
  mark_malware-IsVetted r t s h q e st =
      let (f, old, same) = laws.mark_malware-Stored r q t s e st in
      (same.1 ∙ (h q f old).0, (h q f old).1)

-- One more response is written; it sends no artifact, or the package passed; and the store is
-- vetted.
abbrev pub Delivers :
    {S : Type 0} {cache : ArtifactCache S}
    → CacheLaws cache
    → (PackageRef → Type 0)
    → PackageRef
    → World S
    → World S
    → Type 0
Delivers laws Passed ref w w' =
    IsVetted laws Passed w'.store
    × ((resp : Response) × (w'.responses ≡ w.responses ++ resp ∷ [])
        × ((is_artifact resp.body ≡ false) ⊎ Passed ref))

module _ {S : Type 0} (cfg : HandlerConfig S) (laws : CacheLaws cfg.artifacts)
    (Passed : PackageRef → Type 0) (request_id : Text) (ref : PackageRef) where
  emit-Delivers :
      (ev : Event) (resp : Response) (w : World S)
      → IsVetted laws Passed w.store
      → (is_artifact resp.body ≡ false) ⊎ Passed ref
      → Delivers laws Passed ref w (emit cfg request_id ref ev resp w)
  unfolding emit
  emit-Delivers ev resp w h p = (h, (resp, refl, p))

  cached-Delivers :
      (entry : ArtifactEntry) (ev : Event) (w : World S)
      → IsVetted laws Passed w.store
      → Passed ref
      → Delivers laws Passed ref w (serve_from_cache cfg request_id ref entry ev w)
  unfolding serve_from_cache
  cached-Delivers entry ev w h p = elim (Bool-cases (cfg.can_open entry.artifact_path)) [
    | inl e ↦ rw e (emit-Delivers _ _ w h (inr p))
    | inr e ↦ rw e (emit-Delivers _ _ w h (inl refl))
  ]

  rechecked-Delivers :
      (entry : ArtifactEntry) (out : Option RecheckOutcome) (w : World S)
      → IsVetted laws Passed w.store
      → Passed ref
      → Delivers laws Passed ref w (answer_rechecked cfg request_id ref entry out w)
  unfolding answer_rechecked answer_evicted
  rechecked-Delivers entry (some (cve_evicted by d)) w h p = emit-Delivers _ _ w h (inr p)
  rechecked-Delivers entry (some (malware_evicted av)) w h p = emit-Delivers _ _ w h (inr p)
  rechecked-Delivers entry none w h p = cached-Delivers entry _ w h p

  recheck-IsVetted :
      (entry : ArtifactEntry) (s : S)
      → IsVetted laws Passed s
      → IsVetted laws Passed (recheck_expired cfg ref entry s).1
  recheck-IsVetted entry s h =
      recheck_keeps cfg ref entry (IsVetted laws Passed)
        (mark_cve-IsVetted laws Passed ref cfg.run_clock)
        (mark_malware-IsVetted laws Passed ref cfg.run_clock) (invalidate-IsVetted laws Passed ref)
        s h

  hit-Delivers :
      (entry : ArtifactEntry) (w : World S)
      → IsVetted laws Passed w.store
      → Passed ref
      → Delivers laws Passed ref w (serve_hit cfg request_id ref entry w)
  unfolding serve_hit
  hit-Delivers entry w h p = elim (Bool-cases entry.scan_clean) [
    | inl e ↦ rw e (rechecked-Delivers _ _ _ (recheck-IsVetted _ w.store h) p)
    | inr e ↦ rw e (emit-Delivers _ _ w h (inl refl))
  ]

  cache_error-Delivers :
      (w : World S)
      → IsVetted laws Passed w.store
      → Delivers laws Passed ref w (cache_error cfg request_id ref w)
  unfolding cache_error
  cache_error-Delivers w h = emit-Delivers _ _ w h (inl refl)

  read_back-Delivers :
      (sc : FilterResult) (found : Option ArtifactEntry × S) (w : World S)
      → IsVetted laws Passed found.1
      → Passed ref
      → Delivers laws Passed ref w (serve_stored cfg request_id ref sc found w)
  unfolding serve_stored
  read_back-Delivers sc (none, s) w h p = cache_error-Delivers (record w { store = s }) h
  read_back-Delivers sc (some entry, s) w h p = cached-Delivers entry _ (record w { store = s }) h p

  put-Delivers :
      (sc : FilterResult) (put : Bool × S) (w : World S)
      → IsVetted laws Passed put.1
      → Passed ref
      → Delivers laws Passed ref w (serve_put cfg request_id ref sc put w)
  unfolding serve_put
  put-Delivers sc (true, s) w h p =
      read_back-Delivers sc (cfg.artifacts.get ref s) w (get-IsVetted laws Passed ref s h) p
  put-Delivers sc (false, s) w h p = cache_error-Delivers (record w { store = s }) h

  module _ (passes : (tmp : Text) (sc : FilterResult) → Admitted cfg ref tmp sc → Passed ref) where
    admitted-Delivers :
        (c : Checked (Text × FilterResult)) (w : World S)
        → admit cfg request_id ref ≡ c
        → IsVetted laws Passed w.store
        → Delivers laws Passed ref w (serve_admitted cfg request_id ref c w)
    unfolding serve_admitted store_and_serve
    admitted-Delivers (refused ev resp) w e h =
        emit-Delivers ev resp w h (inl (admit-IsRefusal cfg request_id ref ev resp e).no_artifact)
    admitted-Delivers (passed (tmp, sc)) w e h =
        let p = passes tmp sc ((admit_iff cfg request_id ref tmp sc).0 e) in
        put-Delivers sc (cfg.artifacts.put ref tmp true w.store) w
          (put-IsVetted laws Passed ref tmp w.store p h) p

    looked_up-Delivers :
        (found : Option ArtifactEntry × S) (w : World S)
        → cfg.artifacts.get ref w.store ≡ found
        → IsVetted laws Passed w.store
        → Delivers laws Passed ref w (serve_looked_up cfg request_id ref found w)
    unfolding serve_looked_up
    looked_up-Delivers (some entry, s) w e h =
        hit-Delivers entry (record w { store = s })
          (subst (IsVetted laws Passed) (ap (λ x. x.1) e) (get-IsVetted laws Passed ref w.store h))
          (h ref entry (laws.Stored-of_get ref w.store entry (ap (λ x. x.0) e))).1
    looked_up-Delivers (none, s) w e h =
        admitted-Delivers (admit cfg request_id ref) (record w { store = s }) refl
          (subst (IsVetted laws Passed) (ap (λ x. x.1) e) (get-IsVetted laws Passed ref w.store h))

    pub serve_download-Delivers :
        (w : World S)
        → IsVetted laws Passed w.store
        → Delivers laws Passed ref w (serve_download cfg request_id ref w)
    unfolding serve_download
    serve_download-Delivers w h = looked_up-Delivers (cfg.artifacts.get ref w.store) w refl h
