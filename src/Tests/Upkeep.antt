-- ===== src/Tests/Upkeep.antt =====
-- The theorems on the circuit breaker, the combined scanner and the eviction, on small inputs.
use jo_ei.Prelude.{
  ℕ, suc, ◌+◌, ◌≤◌, ◌≡◌, ◌↔◌, inl, refl, true, false, List, [], ◌∷◌, none, some, ltb, all, arith,
  min, length, if◌then◌else◌,
}
use jo_ei.Prelude.Int.{pos}
use jo_ei.Prelude.Text.{Text, codes, text_eq, trim_space, is_space}
use jo_ei.Gate.{AvResult}
use jo_ei.Upstream.Breaker.{
  Hosts, BreakerConfig, HeaderParsers, state_of, is_open, base_response, round_trip,
  parse_retry_after,
}
use jo_ei.Upstream.Breaker.Circuits.{
  throttled_host_opens, HasThrottles, overlong_retry_stays_closed,
}
use jo_ei.Scanner.Multi.{EngineAnswer, engine_error, engine_result, multi_scan, as_result}
use jo_ei.Scanner.Multi.Closed.{is_fine, multi_scan_clean_iff}
use jo_ei.Cache.Index.{Row, total_size_bytes}
use jo_ei.Cache.Local.{LocalState, new_row}
use jo_ei.Cache.Local.Eviction.{evict_loop, evict_to_size}
use jo_ei.Cache.Local.Eviction.Ends.{evict_rounds_end}
use jo_ei.Cache.Local.Eviction.Bound.{evict_to_size_bound}
use jo_ei.Tests.Data.{lodash, path_of, size_of, clean_file}

-- A parser that reads one number.
abbrev parsers : HeaderParsers
parsers = record {
  atoi = λ s. if text_eq s (codes "9223372037") then some (pos 9223372037) else none;
  parse_time = λ s. none;
}

abbrev breaker : BreakerConfig
breaker = record { base_delay = 1000000000; max_delay = 60000000000; parsers = parsers }

abbrev host : Text
host = codes "repo1.maven.org"

abbrev no_hosts : Hosts
no_hosts = []

all_closed : is_open host 5000 no_hosts ≡ false
unfolding is_open state_of
all_closed = refl

no_header : parse_retry_after parsers [] 5000 ≡ none
unfolding parse_retry_after trim_space
no_header = refl

throttled_host_opens_example :
    (until : ℕ) × ((t : ℕ)
      → is_open host t (round_trip breaker host (base_response 429 []) 7 5000 no_hosts).1
        ≡ ltb t until)
    × (5000 + min 1000000000 60000000000 ≤ until)
    × (until ≤ 5000 + 60000000000)
throttled_host_opens_example =
    throttled_host_opens breaker host 7 5000 no_hosts 429 [] all_closed (inl refl) no_header
      (omega arith) (omega arith)

none_recorded : HasThrottles no_hosts
unfolding state_of
none_recorded h st e = absurd (ground arith)

-- 292 years.
abbrev long_wait : Text
long_wait = codes "9223372037"

trimmed_wait : trim_space long_wait ≡ b'9' ∷ codes "223372037"
unfolding trim_space is_space
trimmed_wait = refl

wait_read : parsers.atoi (b'9' ∷ codes "223372037") ≡ some (pos 9223372037)
unfolding text_eq
wait_read = refl

overlong_retry_stays_closed_example :
    is_open host 5001 (round_trip breaker host (base_response 429 long_wait) 7 5000 no_hosts).1
    ≡ false
overlong_retry_stays_closed_example =
    overlong_retry_stays_closed breaker host 7 5000 9223372037 429 5001 long_wait b'9'
      (codes "223372037") no_hosts all_closed (inl refl) trimmed_wait wait_read (omega arith)
      (omega arith) (omega arith) (omega arith)

abbrev infected : AvResult
infected = record {
  clean = false;
  signature = codes "EICAR";
  engine = codes "clamav";
  incomplete = false;
}

abbrev engines : List EngineAnswer
engines = engine_error (codes "timeout") ∷ engine_result (some infected) ∷ []

multi_scan_clean_iff_example :
    ((res : AvResult) × (as_result (multi_scan (engine_result (some clean_file) ∷ [])) ≡ some res)
      × (res.clean ≡ true)
      × (res.incomplete ≡ false))
    ↔ (all is_fine (engine_result (some clean_file) ∷ []) ≡ true)
multi_scan_clean_iff_example = multi_scan_clean_iff (engine_result (some clean_file) ∷ [])

abbrev full_cache : LocalState
full_cache = record {
  rows =
      new_row path_of size_of lodash (codes "/tmp/1") true 9000000000
      ∷ new_row path_of size_of (record lodash { version = codes "4.17.20" }) (codes "/tmp/2") true
          5000000000
      ∷ [];
  files = [];
  now = 10000000000;
  faults = [];
}

evict_rounds_end_example :
    evict_loop 7 5 [] (some 20, full_cache)
    ≡ evict_loop (suc (length full_cache.rows)) 5 [] (some 20, full_cache)
evict_rounds_end_example = evict_rounds_end 7 5 20 [] full_cache (omega arith)

evict_to_size_bound_example : total_size_bytes (evict_to_size 5 [] full_cache).rows ≤ 5
evict_to_size_bound_example = evict_to_size_bound 5 full_cache refl

abbrev recent : Row
recent = new_row path_of size_of lodash (codes "/tmp/1") true 9000000000
