-- ===== src/Tests/Proxy.antt =====
-- The proxy's theorems on the small installation.
use jo_ei.Prelude.{
  ℕ, ◌≡◌, ◌≤◌, ◌↔◌, ◌⊎◌, inl, inr, arith, List, refl, true, false, [], ◌∷◌, ◌++◌, none, some, keep,
  find, any, if◌then◌else◌,
}
use jo_ei.Prelude.Text.{Text, codes, text_eq, contains}
use jo_ei.Prelude.Int.{sub_sat}
use jo_ei.Gate.{
  PackageRef, FilterResult, PolicyDecision, AvResult, ArtifactEntry, Event, Verdict, GateName,
  Reason, BlockedBy, at_least,
}
use jo_ei.Gate.Cache.{ArtifactCache}
use jo_ei.SupplyChain.{check, allowlist_contains, min_age}
use jo_ei.Policy.Engine.{evaluate, matches_index, by_name, by_version, blocking}
use jo_ei.Proxy.Config.{HandlerConfig, Response, artifact, cve_blocked, outcome}
use jo_ei.Proxy.Admission.{
  passed, refused, blame, admit, gates, metadata_gate, cve_gate, download_gate, malware_gate,
  check_supply_chain,
}
use jo_ei.Proxy.Admission.Cleared.{Admitted, admit_iff}
use jo_ei.Proxy.Admission.Refusals.{IsRefusal, admit-IsRefusal}
use jo_ei.Proxy.Admission.NoScanner.{unscanned_ignores_policy}
use jo_ei.Proxy.Download.{
  Answer, Exchange, answered, no_response, downloaded, got, download_from_upstreams, try_download,
}
use jo_ei.Proxy.Download.Fallback.{Serves, download_iff, try_download_sound}
use jo_ei.Proxy.Recheck.{
  cve_evicted, malware_evicted, recheck_expired, recheck_due, lapsed, run_rechecks, cve_recheck,
  malware_recheck,
}
use jo_ei.Proxy.Recheck.Outcomes.{CveRefused, MalwareFound, recheck_evicts}
use jo_ei.Proxy.Handler.{
  serve_download, serve_admitted, store_and_serve, serve_from_cache, emit, last_gate, serve_hit,
}
use jo_ei.Proxy.Handler.Answers.{Answered, serve_download_answers}
use jo_ei.Proxy.Forward.{MirrorAnswer, replied, forwarded, forward_upstream}
use jo_ei.Proxy.Forward.Replies.{Answers, forward_iff}
use jo_ei.Proxy.History.{serve, serve_all, AdmittedIn, served_was_admitted}
use jo_ei.Cache.Local.{
  LocalState, local_cache, local_get, local_put, local_invalidate, query, remove_file, attempt,
  exec, new_row,
}
use jo_ei.Cache.Local.Laws.{local_laws}
use jo_ei.Cache.Local.Invalidation.{
  CacheCall, lookup_of, invalidation_of, put_of, eviction_to, Puts, make_calls,
  invalidated_stays_out,
}
use jo_ei.Cache.Local.Stored.{Stored}
use jo_ei.Cache.Index.{
  index_get, insert, increment_hit, delete, update_row, overwrite, entry_of, unix, of_unix,
  same_ref,
}
use jo_ei.Tests.Data.{
  lodash, installation, start, install_lodash, path_of, size_of, tmp_file, mirror, dead_mirror,
  served_file, empty_cache, harmful, critical_finding,
}

abbrev cache : ArtifactCache LocalState
cache = local_cache path_of size_of

-- The answer to both of two requests: the second is a cache hit.
abbrev hit : Response
hit = record { status = 200; body = artifact (path_of lodash) }

second_answer :
    (serve cache install_lodash (serve_all cache (install_lodash ∷ []) start)).responses
    ≡ (serve_all cache (install_lodash ∷ []) start).responses ++ hit ∷ []
unfolding serve_all serve serve_download serve_admitted store_and_serve serve_from_cache emit
    outcome last_gate serve_hit admit gates metadata_gate cve_gate download_gate malware_gate
    check_supply_chain download_from_upstreams try_download evaluate matches_index by_name
    by_version blocking at_least check text_eq contains allowlist_contains min_age sub_sat
    recheck_expired recheck_due lapsed run_rechecks cve_recheck malware_recheck local_get local_put
    local_invalidate query remove_file attempt exec index_get insert increment_hit delete update_row
    overwrite new_row entry_of unix of_unix same_ref keep find any
second_answer = refl

nothing-Stored : (q : PackageRef) (e : ArtifactEntry) → ¬ Stored q e start.store
nothing-Stored q e (row, i, key, entry) = i

served_was_admitted_example : AdmittedIn cache (install_lodash ∷ install_lodash ∷ []) lodash
served_was_admitted_example =
    served_was_admitted (local_laws path_of size_of) (install_lodash ∷ []) install_lodash start hit
      nothing-Stored second_answer refl

abbrev old_lodash : FilterResult
old_lodash = record { allowed = true; reason = Reason.ok; published_at = 1000; block_until = 0 }

admit_iff_example :
    (admit installation (codes "r1") lodash ≡ passed (tmp_file, old_lodash))
    ↔ Admitted installation lodash tmp_file old_lodash
admit_iff_example = admit_iff installation (codes "r1") lodash tmp_file old_lodash

serve_download_answers_example :
    Answered installation start (serve_download installation (codes "r1") lodash start)
serve_download_answers_example = serve_download_answers installation (codes "r1") lodash start

-- The scanner has new findings, which are due.
abbrev worse : HandlerConfig LocalState
worse = record installation { cve_scanner = some (λ r. some harmful); cve_recheck_ttl = 5 }

abbrev cached_lodash : ArtifactEntry
cached_lodash = record {
  artifact_path = path_of lodash;
  scan_clean = true;
  last_cve_check = 1000;
  last_malware_check = 1000;
}

abbrev too_severe : PolicyDecision
too_severe = record { allowed = false; reason = Reason.cve_found; findings = critical_finding ∷ [] }

evicts :
    recheck_expired worse lodash cached_lodash empty_cache
    ≡ (some (cve_evicted BlockedBy.cve too_severe), empty_cache)
unfolding serve_all serve serve_download serve_admitted store_and_serve serve_from_cache emit
    outcome last_gate serve_hit admit gates metadata_gate cve_gate download_gate malware_gate
    check_supply_chain download_from_upstreams try_download evaluate matches_index by_name
    by_version blocking at_least check text_eq contains allowlist_contains min_age sub_sat
    recheck_expired recheck_due lapsed run_rechecks cve_recheck malware_recheck local_get local_put
    local_invalidate query remove_file attempt exec index_get insert increment_hit delete update_row
    overwrite new_row entry_of unix of_unix same_ref keep find any
evicts = refl

recheck_evicts_example :
    ((d : PolicyDecision) × (cve_evicted BlockedBy.cve too_severe ≡ cve_evicted (blame d.reason) d)
      × CveRefused worse lodash cached_lodash d
      × (empty_cache ≡ (local_invalidate lodash empty_cache).1))
    ⊎ ((av : AvResult) × (cve_evicted BlockedBy.cve too_severe ≡ malware_evicted av)
        × MalwareFound worse lodash cached_lodash av
        × (empty_cache
            ≡ (local_invalidate lodash (cve_recheck worse lodash cached_lodash empty_cache).1).1))
recheck_evicts_example =
    recheck_evicts worse lodash cached_lodash empty_cache empty_cache
      (cve_evicted BlockedBy.cve too_severe) evicts

-- Neither scanner answers.
abbrev failing : HandlerConfig LocalState
failing = record installation {
  cve_scanner = some (λ r. none);
  av_scanner = some (λ file. none);
  cve_recheck_ttl = 5;
  malware_recheck_ttl = 5;
}

abbrev blocked_event : Event
blocked_event = record {
  request_id = codes "r1";
  ref = lodash;
  verdict = Verdict.block;
  gate = GateName.cve;
  http_status = 403;
  reason = Reason.cve_found;
  blocked_by = BlockedBy.cve ∷ [];
  cves = critical_finding ∷ [];
  malware_engine = [];
  malware_signature = [];
  published_at = 0;
  block_until = 0;
}

abbrev blocked_response : Response
blocked_response = record { status = 403; body = cve_blocked too_severe }

refuses : admit worse (codes "r1") lodash ≡ refused blocked_event blocked_response
unfolding serve_all serve serve_download serve_admitted store_and_serve serve_from_cache emit
    outcome last_gate serve_hit admit gates metadata_gate cve_gate download_gate malware_gate
    check_supply_chain download_from_upstreams try_download evaluate matches_index by_name
    by_version blocking at_least check text_eq contains allowlist_contains min_age sub_sat
    recheck_expired recheck_due lapsed run_rechecks cve_recheck malware_recheck local_get local_put
    local_invalidate query remove_file attempt exec index_get insert increment_hit delete update_row
    overwrite new_row entry_of unix of_unix same_ref keep find any
refuses = refl

admit-IsRefusal_example : IsRefusal blocked_event blocked_response
admit-IsRefusal_example =
    admit-IsRefusal worse (codes "r1") lodash blocked_event blocked_response refuses

unscanned_ignores_policy_example :
    admit (record installation { cve_scanner = none; policy = none }) (codes "r1") lodash
    ≡ admit (record installation { cve_scanner = none }) (codes "r1") lodash
unscanned_ignores_policy_example =
    unscanned_ignores_policy (record installation { cve_scanner = none }) (codes "r1") lodash none
      refl

-- Only the mirror answers.
abbrev one_up : Text → Exchange
one_up url = if text_eq url mirror then served_file else no_response false

download_iff_example :
    (download_from_upstreams 100 one_up (dead_mirror ∷ mirror ∷ []) ≡ got tmp_file [])
    ↔ Serves 100 one_up tmp_file [] (dead_mirror ∷ mirror ∷ [])
download_iff_example = download_iff 100 one_up (dead_mirror ∷ mirror ∷ []) tmp_file []

downloads : try_download 100 served_file ≡ downloaded tmp_file []
unfolding try_download
downloads = refl

try_download_sound_example :
    (a : Answer) × (n : ℕ) × (served_file ≡ answered a)
    × (a.status ≡ 200)
    × (a.temp_file ≡ some tmp_file)
    × (a.body ≡ some n)
    × ((◌≡◌ {A = ℕ} 100 0) ⊎ (n ≤ 100))
try_download_sound_example = try_download_sound 100 served_file tmp_file [] downloads

abbrev other_lodash : PackageRef
other_lodash = record lodash { version = codes "4.17.20" }

-- The cache with lodash in it.
abbrev stocked : LocalState
stocked = (serve cache install_lodash start).store

evicted : (local_invalidate lodash stocked).0 ≡ true
unfolding serve_all serve serve_download serve_admitted store_and_serve serve_from_cache emit
    outcome last_gate serve_hit admit gates metadata_gate cve_gate download_gate malware_gate
    check_supply_chain download_from_upstreams try_download evaluate matches_index by_name
    by_version blocking at_least check text_eq contains allowlist_contains min_age sub_sat
    recheck_expired recheck_due lapsed run_rechecks cve_recheck malware_recheck local_get local_put
    local_invalidate query remove_file attempt exec index_get insert increment_hit delete update_row
    overwrite new_row entry_of unix of_unix same_ref keep find any
evicted = refl

abbrev later_calls : List CacheCall
later_calls =
    lookup_of lodash
    ∷ put_of other_lodash tmp_file true
    ∷ eviction_to 100 []
    ∷ invalidation_of lodash
    ∷ []

no_put_of_lodash : ¬ Puts lodash later_calls
no_put_of_lodash (inl e) = ground (arith, e)
no_put_of_lodash (inr i) = i

invalidated_stays_out_example :
    (local_get lodash
      (make_calls path_of size_of later_calls (local_invalidate lodash stocked).1)).0
    ≡ none
invalidated_stays_out_example =
    invalidated_stays_out path_of size_of lodash stocked later_calls evicted no_put_of_lodash

-- The first mirror has no such document.
abbrev second_replies : Text → MirrorAnswer
second_replies url = if text_eq url mirror then replied 200 else replied 404

forward_iff_example :
    (forward_upstream second_replies true (dead_mirror ∷ mirror ∷ []) ≡ forwarded mirror 200)
    ↔ ((true ≡ true) × Answers second_replies mirror 200 (dead_mirror ∷ mirror ∷ []))
forward_iff_example = forward_iff second_replies true (dead_mirror ∷ mirror ∷ []) mirror 200
