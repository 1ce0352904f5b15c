-- ===== src/Proxy/Handler.antt =====
-- internal/proxy/handler.go, ServeHTTP: one request, from the choice of its treatment to the cache
-- hit or the download. The state is the cache's store with the events recorded and the responses
-- written so far.
pub mod Answers
pub mod Safety
use jo_ei.Prelude.{
  ℕ, Bool, true, false, not, List, [], ◌∷◌, ◌++◌, Option, none, some, if◌then◌else◌,
}
use jo_ei.Prelude.Text.{Text}
use jo_ei.Gate.{
  PackageRef, FilterResult, ArtifactEntry, Event, Verdict, GateName, Reason, BlockedBy,
}
use jo_ei.Proxy.Config.{
  HandlerConfig, Response, Body, cve_blocked, malware_blocked, cannot_read, artifact,
  error_response, outcome,
}
use jo_ei.Proxy.Admission.{Checked, refused, passed, admit}
use jo_ei.Proxy.Recheck.{RecheckOutcome, cve_evicted, malware_evicted, recheck_expired}

pub record World (S : Type 0) : Type 0 where
  pub store : S
  pub events : List Event
  pub responses : List Response

-- What the adapter's capabilities say of a request; a capability that the adapter lacks is false
-- or none.
pub record Incoming : Type 0 where
  pub download : Option PackageRef
  pub artifact_path : Bool
  pub index_request : Bool
  pub metadata_request : Option Text

-- How a request is treated.
pub data Treatment : Type 0 where
  intercept : PackageRef → Treatment
  refuse_unrecognized rewrite_index transparent : Treatment
  filter_metadata : Text → Treatment

unfoldable pub treatment : Incoming → Treatment
treatment r = elim r.download [
  | some ref ↦ intercept ref
  | none ↦
      if r.artifact_path
      then refuse_unrecognized
      else if r.index_request
      then rewrite_index
      else elim r.metadata_request [ some m ↦ filter_metadata m | none ↦ transparent ]
]

module _ {S : Type 0} (cfg : HandlerConfig S) (request_id : Text) (ref : PackageRef) where
  -- One outcome: the event, where there is a recorder, and the response.
  unfoldable pub emit : Event → Response → World S → World S
  emit ev resp w = record w {
    events = w.events ++ (if cfg.has_recorder then ev ∷ [] else []);
    responses = w.responses ++ resp ∷ [];
  }

  -- serveFromCache, with the event that is recorded when the file can be read.
  unfoldable pub serve_from_cache : ArtifactEntry → Event → World S → World S
  serve_from_cache entry served w =
      if cfg.can_open entry.artifact_path
      then emit served (record { status = 200; body = artifact entry.artifact_path }) w
      else emit (outcome request_id ref Verdict.error GateName.cache Reason.cache_read_error 500)
          (record { status = 500; body = cannot_read }) w

  -- The response and the event of an entry that a re-check evicted.
  unfoldable pub answer_evicted : RecheckOutcome → World S → World S
  answer_evicted (cve_evicted by d) w =
      emit
        (record (outcome request_id ref Verdict.block GateName.cve d.reason 403) {
          blocked_by = by ∷ [];
          cves = d.findings;
        })
        (record { status = 403; body = cve_blocked d }) w
  answer_evicted (malware_evicted av) w =
      emit
        (record (outcome request_id ref Verdict.block GateName.malware Reason.malware_found 403) {
          blocked_by = BlockedBy.malware ∷ [];
          malware_engine = av.engine;
          malware_signature = av.signature;
        })
        (record { status = 403; body = malware_blocked av.engine av.signature }) w

  answer_rechecked : ArtifactEntry → Option RecheckOutcome → World S → World S
  answer_rechecked entry (some out) w = answer_evicted out w
  answer_rechecked entry none w =
      serve_from_cache entry
        (outcome request_id ref Verdict.cache GateName.cache Reason.cache_hit 200) w

  -- A cache hit: an entry that is not clean is refused; one that is gets its re-checks.
  unfoldable pub serve_hit : ArtifactEntry → World S → World S
  unfolding answer_rechecked
  serve_hit entry w =
      if not entry.scan_clean
      then emit (outcome request_id ref Verdict.block GateName.cache Reason.scan_failed 403)
          (error_response 403 Reason.scan_failed 0) w
      else let (out, s) = recheck_expired cfg ref entry w.store in
        answer_rechecked entry out (record w { store = s })

  -- The deepest gate that the artifact cleared.
  unfoldable pub last_gate : GateName
  last_gate = elim cfg.av_scanner [
    | some av ↦ GateName.malware
    | none ↦ elim cfg.cve_scanner [
      | none ↦ GateName.supply
      | some scan ↦ elim cfg.policy [ none ↦ GateName.supply | some evaluate ↦ GateName.cve ]
    ]
  ]

  cache_error : World S → World S
  cache_error =
      emit (outcome request_id ref Verdict.error GateName.cache Reason.cache_error 500)
        (error_response 500 Reason.cache_error 0)

  serve_stored : FilterResult → Option ArtifactEntry × S → World S → World S
  serve_stored sc (none, s) w = cache_error (record w { store = s })
  serve_stored sc (some entry, s) w =
      serve_from_cache entry
        (record (outcome request_id ref Verdict.pass last_gate sc.reason 200) {
          published_at = sc.published_at;
        })
        (record w { store = s })

  serve_put : FilterResult → Bool × S → World S → World S
  serve_put sc (true, s) w = serve_stored sc (cfg.artifacts.get ref s) w
  serve_put sc (false, s) w = cache_error (record w { store = s })

  -- The admitted file is put into the cache, read back and served.
  unfoldable pub store_and_serve : Text → FilterResult → World S → World S
  unfolding serve_put serve_stored cache_error
  store_and_serve tmp sc w = serve_put sc (cfg.artifacts.put ref tmp true w.store) w

  unfoldable pub serve_admitted : Checked (Text × FilterResult) → World S → World S
  serve_admitted (refused ev resp) w = emit ev resp w
  serve_admitted (passed (tmp, sc)) w = store_and_serve tmp sc w

  serve_looked_up : Option ArtifactEntry × S → World S → World S
  serve_looked_up (some entry, s) w = serve_hit entry (record w { store = s })
  serve_looked_up (none, s) w = serve_admitted (admit cfg request_id ref) (record w { store = s })

  -- An intercepted download.
  unfoldable pub serve_download : World S → World S
  unfolding serve_looked_up
  serve_download w = serve_looked_up (cfg.artifacts.get ref w.store) w
