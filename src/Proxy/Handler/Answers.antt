-- ===== src/Proxy/Handler/Answers.antt =====
-- Every intercepted request is answered once, and the event says what the response was.
use jo_ei.Prelude.{
  ◌≡◌, refl, ◌⊎◌, inl, inr, Bool, true, false, [], ◌∷◌, ◌++◌, Option, none, some, arith, Bool-cases,
  if◌then◌else◌,
}
use jo_ei.Prelude.Text.{Text}
use jo_ei.Gate.{PackageRef, FilterResult, ArtifactEntry, Event, Verdict}
use jo_ei.Proxy.Config.{HandlerConfig, Response, outcome}
use jo_ei.Proxy.Admission.{Checked, refused, passed, admit}
use jo_ei.Proxy.Admission.Refusals.{IsRefusal, is_artifact, admit-IsRefusal}
use jo_ei.Proxy.Recheck.{RecheckOutcome, cve_evicted, malware_evicted}
use jo_ei.Proxy.Handler.{
  World, emit, serve_from_cache, answer_evicted, serve_hit, store_and_serve, serve_admitted,
  serve_download, answer_rechecked, serve_stored, serve_put, cache_error, serve_looked_up,
}

-- The verdicts that go with an artifact.
abbrev pub serves : Verdict → Bool
serves Verdict.pass = true
serves Verdict.cache = true
serves Verdict.block = false
serves Verdict.error = false

-- The event has the status of the response, and a serving verdict exactly if an artifact is sent,
-- which then has status 200.
pub record Agrees (ev : Event) (resp : Response) : Type 0 where
  pub same_status : ev.http_status ≡ resp.status
  pub same_service : serves ev.verdict ≡ is_artifact resp.body
  pub fine : (is_artifact resp.body ≡ false) ⊎ (resp.status ≡ 200)

-- One response is written, and one event recorded if there is a recorder, and they agree.
abbrev pub Answered : {S : Type 0} → HandlerConfig S → World S → World S → Type 0
Answered cfg w w' =
    (ev : Event) × (resp : Response) × (w'.responses ≡ w.responses ++ resp ∷ [])
    × (w'.events ≡ w.events ++ (if cfg.has_recorder then ev ∷ [] else []))
    × Agrees ev resp

module _ {S : Type 0} (cfg : HandlerConfig S) (request_id : Text) (ref : PackageRef) where
  emit_answers :
      (ev : Event) (resp : Response) (w : World S)
      → Agrees ev resp
      → Answered cfg w (emit cfg request_id ref ev resp w)
  unfolding emit
  emit_answers ev resp w h = (ev, resp, refl, refl, h)

  refusal-Agrees : (ev : Event) (resp : Response) → IsRefusal ev resp → Agrees ev resp
  refusal-Agrees ev resp h = ground arith

  served_answers :
      (entry : ArtifactEntry) (ev : Event) (w : World S)
      → ev.http_status ≡ 200
      → serves ev.verdict ≡ true
      → Answered cfg w (serve_from_cache cfg request_id ref entry ev w)
  unfolding serve_from_cache outcome
  served_answers entry ev w h v = elim (Bool-cases (cfg.can_open entry.artifact_path)) [
    | inl e ↦
        rw e (emit_answers _ _ w (record { same_status = h; same_service = v; fine = inr refl }))
    | inr e ↦
        rw e
          (emit_answers _ _ w (record { same_status = refl; same_service = refl; fine = inl refl }))
  ]

  evicted_answers :
      (out : RecheckOutcome) (w : World S)
      → Answered cfg w (answer_evicted cfg request_id ref out w)
  unfolding answer_evicted outcome
  evicted_answers (cve_evicted by d) w =
      emit_answers _ _ w (record { same_status = refl; same_service = refl; fine = inl refl })
  evicted_answers (malware_evicted av) w =
      emit_answers _ _ w (record { same_status = refl; same_service = refl; fine = inl refl })

  rechecked_answers :
      (entry : ArtifactEntry) (out : Option RecheckOutcome) (w : World S)
      → Answered cfg w (answer_rechecked cfg request_id ref entry out w)
  unfolding answer_rechecked outcome
  rechecked_answers entry (some out) w = evicted_answers out w
  rechecked_answers entry none w = served_answers entry _ w refl refl

  hit_answers :
      (entry : ArtifactEntry) (w : World S) → Answered cfg w (serve_hit cfg request_id ref entry w)
  unfolding serve_hit outcome
  hit_answers entry w = elim (Bool-cases entry.scan_clean) [
    | inl e ↦ rw e (rechecked_answers _ _ _)
    | inr e ↦
        rw e
          (emit_answers _ _ w (record { same_status = refl; same_service = refl; fine = inl refl }))
  ]

  cache_error_answers : (w : World S) → Answered cfg w (cache_error cfg request_id ref w)
  unfolding cache_error outcome
  cache_error_answers w =
      emit_answers _ _ w (record { same_status = refl; same_service = refl; fine = inl refl })

  read_back_answers :
      (sc : FilterResult) (found : Option ArtifactEntry × S) (w : World S)
      → Answered cfg w (serve_stored cfg request_id ref sc found w)
  unfolding serve_stored outcome
  read_back_answers sc (none, s) w = cache_error_answers (record w { store = s })
  read_back_answers sc (some entry, s) w = served_answers entry _ (record w { store = s }) refl refl

  put_answers :
      (sc : FilterResult) (put : Bool × S) (w : World S)
      → Answered cfg w (serve_put cfg request_id ref sc put w)
  unfolding serve_put
  put_answers sc (true, s) w = read_back_answers sc (cfg.artifacts.get ref s) w
  put_answers sc (false, s) w = cache_error_answers (record w { store = s })

  stored_answers :
      (tmp : Text) (sc : FilterResult) (w : World S)
      → Answered cfg w (store_and_serve cfg request_id ref tmp sc w)
  unfolding store_and_serve
  stored_answers tmp sc w = put_answers sc (cfg.artifacts.put ref tmp true w.store) w

  admitted_answers :
      (c : Checked (Text × FilterResult)) (w : World S)
      → admit cfg request_id ref ≡ c
      → Answered cfg w (serve_admitted cfg request_id ref c w)
  unfolding serve_admitted
  admitted_answers (refused ev resp) w e =
      emit_answers ev resp w (refusal-Agrees ev resp (admit-IsRefusal cfg request_id ref ev resp e))
  admitted_answers (passed (tmp, sc)) w e = stored_answers tmp sc w

  looked_up_answers :
      (found : Option ArtifactEntry × S) (w : World S)
      → Answered cfg w (serve_looked_up cfg request_id ref found w)
  unfolding serve_looked_up
  looked_up_answers (some entry, s) w = hit_answers entry (record w { store = s })
  looked_up_answers (none, s) w =
      admitted_answers (admit cfg request_id ref) (record w { store = s }) refl

  -- Every intercepted request, whatever the components answer, writes one response and records one
  -- event, or none where there is no recorder; their statuses are equal, the verdict is PASS or
  -- CACHE exactly when an artifact is sent, and that has status 200.
  pub serve_download_answers : (w : World S) → Answered cfg w (serve_download cfg request_id ref w)
  unfolding serve_download
  serve_download_answers w = looked_up_answers (cfg.artifacts.get ref w.store) w
