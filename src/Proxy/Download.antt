-- ===== src/Proxy/Download.antt =====
-- internal/proxy/handler.go: fetching an artifact from the configured mirrors, in order. What the
-- HTTP client and the file system answer for one URL is an Exchange: no response, with whether the
-- circuit breaker refused the request, or an answer.
pub mod Fallback
use jo_ei.Prelude.{
  ℕ, ◌+◌, Bool, true, false, not, ◌&&◌, List, [], ◌∷◌, ◌++◌, Option, none, some, ltb, ◌==◌, min,
  if◌then◌else◌,
}
use jo_ei.Prelude.Int.{ℤ, pos, ltb_ℤ}
use jo_ei.Prelude.Text.{Text}
use jo_ei.Upstream.{Attempt, AttemptError, circuit_open, too_large, other}

-- An HTTP response: its status, its declared length (negative when unknown), its header, the
-- temporary file that could be created for it, and the bytes of its body, or none where reading
-- or writing them failed.
pub record Answer : Type 0 where
  pub status : ℕ
  pub content_length : ℤ
  pub header : Text
  pub temp_file : Option Text
  pub body : Option ℕ

pub data Exchange : Type 0 where
  no_response : Bool → Exchange
  answered : Answer → Exchange

-- What tryDownload returns: the file and the header, or the status and the error.
pub data Fetched : Type 0 where
  downloaded : Text → Text → Fetched
  failed : ℕ → AttemptError → Fetched

-- io.Copy from the body, cut one byte over the cap when there is one. The cap is a number of
-- megabytes, shifted by 20 bits, and so not the largest int64: one more does not wrap around.
abbrev written : ℕ → ℕ → ℕ
written limit body = if ltb 0 limit then min body (limit + 1) else body

copy_body : ℕ → ℕ → Text → Text → Option ℕ → Fetched
copy_body limit status header tmp none = failed status other
copy_body limit status header tmp (some body) =
    if ltb 0 limit && ltb limit (written limit body)
    then failed status too_large
    else downloaded tmp header

receive : ℕ → Answer → Fetched
receive limit a =
    if not (a.status == 200)
    then failed a.status other
    else if ltb 0 limit && ltb_ℤ (pos limit) a.content_length
    then failed a.status too_large
    else elim a.temp_file [
      | none ↦ failed a.status other
      | some tmp ↦ copy_body limit a.status a.header tmp a.body
    ]

-- tryDownload, with the cap on the bytes of an artifact (0 for none).
unfoldable pub try_download : ℕ → Exchange → Fetched
unfolding receive copy_body
try_download limit (no_response tripped) = failed 0 (if tripped then circuit_open else other)
try_download limit (answered a) = receive limit a

pub data Downloads : Type 0 where
  got : Text → Text → Downloads
  oversized : List Attempt → Downloads
  exhausted : List Attempt → Downloads

abbrev is_too_large : AttemptError → Bool
is_too_large too_large = true
is_too_large e = false

-- downloadFromUpstreams: the loop over the mirrors, with the attempts so far.
unfoldable pub download_loop : ℕ → (Text → Exchange) → List Text → List Attempt → Downloads
download_loop limit http [] atts = exhausted atts
download_loop limit http (u ∷ urls) atts = elim (try_download limit (http u)) [
  | downloaded tmp header ↦ got tmp header
  | failed status e ↦
      let rest =
        download_loop limit http urls (atts ++ record { url = u; status = status; err = e } ∷ []) in
      if is_too_large e then oversized atts else rest
]

unfoldable pub download_from_upstreams : ℕ → (Text → Exchange) → List Text → Downloads
unfolding download_loop
download_from_upstreams limit http urls = download_loop limit http urls []
