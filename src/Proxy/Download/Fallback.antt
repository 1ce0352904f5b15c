-- ===== src/Proxy/Download/Fallback.antt =====
-- Which mirror serves an artifact, and what is left when none does.
use mathlib.Core.List.{append-nil, append_assoc, map-append}
use jo_ei.Prelude.{
  ℕ, ◌≤◌, ◌≡◌, ◌≢◌, refl, ◌⊎◌, inl, inr, false, List, [], ◌∷◌, ◌++◌, some, arith, Option-cases,
  Bool-cases, map, ◌↔◌, if◌then◌else◌,
}
use jo_ei.Prelude.Text.{Text}
use jo_ei.Upstream.{Attempt, AttemptError, too_large}
use jo_ei.Proxy.Download.{
  Answer, Exchange, no_response, answered, Fetched, downloaded, failed, got, oversized, exhausted,
  try_download, download_loop, download_from_upstreams, is_too_large,
}

-- A download succeeds only on a response with status 200 whose body was read whole and, under a
-- limit, is not longer than the limit; the file is the one created for it.
pub try_download_sound :
    (limit : ℕ) (x : Exchange) (tmp header : Text)
    → try_download limit x ≡ downloaded tmp header
    → (a : Answer) × (n : ℕ) × (x ≡ answered a)
      × (a.status ≡ 200)
      × (a.temp_file ≡ some tmp)
      × (a.body ≡ some n)
      × ((limit ≡ 0) ⊎ (n ≤ limit))
unfolding try_download
try_download_sound limit (no_response tripped) tmp header h = absurd (ground arith)
try_download_sound limit (answered a) tmp header h = elim (Option-cases a.body) [
  | inl e ↦ absurd (ground (arith, e))
  | inr (n, e) ↦ (a, n, refl, ground (arith, e), ground (arith, e), e, ground (arith, e))
]

Fetched-cases :
    (f : Fetched)
    → ((tmp : Text) × (header : Text) × (f ≡ downloaded tmp header))
      ⊎ ((status : ℕ) × (e : AttemptError) × (f ≡ failed status e))
Fetched-cases (downloaded tmp header) = inl (tmp, header, refl)
Fetched-cases (failed status e) = inr (status, e, refl)

-- The mirrors before the one that served.
pub data Serves (limit : ℕ) (http : Text → Exchange) (tmp header : Text) : List Text → Type 0 where
  here :
      {u : Text} {urls : List Text}
      → try_download limit (http u) ≡ downloaded tmp header
      → Serves limit http tmp header (u ∷ urls)
  there :
      {u : Text} {urls : List Text} (status : ℕ) (e : AttemptError)
      → try_download limit (http u) ≡ failed status e
      → e ≢ too_large
      → Serves limit http tmp header urls
      → Serves limit http tmp header (u ∷ urls)

-- What the loop does after a failed mirror.
after_failure :
    (limit : ℕ) (http : Text → Exchange) (u : Text) (urls : List Text) (atts : List Attempt)
    (status : ℕ) (e : AttemptError)
    → try_download limit (http u) ≡ failed status e
    → download_loop limit http (u ∷ urls) atts ≡ (
        if is_too_large e
        then oversized atts
        else download_loop limit http urls
            (atts ++ record { url = u; status = status; err = e } ∷ []))
unfolding download_loop
after_failure limit http u urls atts status e h = rw (h, download_loop)

not_too_large : (e : AttemptError) → is_too_large e ≡ false → e ≢ too_large
not_too_large e h = ground arith

loop-Serves :
    (limit : ℕ) (http : Text → Exchange) (urls : List Text) (atts : List Attempt)
    (tmp header : Text)
    → download_loop limit http urls atts ≡ got tmp header
    → Serves limit http tmp header urls
loop-Serves limit http [] atts tmp header h = absurd (unfold download_loop in ground arith)
loop-Serves limit http (u ∷ urls) atts tmp header h =
    elim (Fetched-cases (try_download limit (http u))) [
      | inl (tmp', header', e) ↦
          here {u = u} {urls = urls} (unfold download_loop in ground (arith, e))
      | inr (status, err, e) ↦ elim (Bool-cases (is_too_large err)) [
        | inl big ↦ absurd (ground (arith, after_failure limit http u urls atts status err e, big))
        | inr small ↦ there status err e (not_too_large err small) (
            loop-Serves limit http urls
              (atts ++ record { url = u; status = status; err = err } ∷ []) tmp header
              (ground (arith, after_failure limit http u urls atts status err e, small)))
      ]
    ]

Serves-loop :
    (limit : ℕ) (http : Text → Exchange) (urls : List Text) (atts : List Attempt)
    (tmp header : Text)
    → Serves limit http tmp header urls
    → download_loop limit http urls atts ≡ got tmp header
Serves-loop limit http [] atts tmp header h = elim h [ ]
Serves-loop limit http (u ∷ urls) atts tmp header (here e) =
    unfold download_loop in ground (arith, e)
Serves-loop limit http (u ∷ urls) atts tmp header (there status err e small rest) = ground (
  arith,
  after_failure limit http u urls atts status err e,
  Serves-loop limit http urls (atts ++ record { url = u; status = status; err = err } ∷ []) tmp
      header rest,
)

-- The fetch returns a file exactly when some mirror served it and every mirror before that one
-- failed, none of them because the artifact was over the size cap.
pub download_iff :
    (limit : ℕ) (http : Text → Exchange) (urls : List Text) (tmp header : Text)
    → (download_from_upstreams limit http urls ≡ got tmp header) ↔ Serves limit http tmp header urls
unfolding download_from_upstreams
download_iff limit http urls tmp header =
    (loop-Serves limit http urls [] tmp header, Serves-loop limit http urls [] tmp header)

download_loop-tail :
    (limit : ℕ) (http : Text → Exchange) (u : Text) (urls : List Text) (atts atts' : List Attempt)
    (status : ℕ) (e : AttemptError)
    → try_download limit (http u) ≡ failed status e
    → is_too_large e ≡ false
    → download_loop limit http (u ∷ urls) atts ≡ exhausted atts'
    → download_loop limit http urls (atts ++ record { url = u; status = status; err = e } ∷ [])
      ≡ exhausted atts'
download_loop-tail limit http u urls atts atts' status e h small done =
    ground (arith, after_failure limit http u urls atts status e h, small)

loop_attempts :
    (limit : ℕ) (http : Text → Exchange) (urls : List Text) (atts atts' : List Attempt)
    → download_loop limit http urls atts ≡ exhausted atts'
    → map (λ (a : Attempt). a.url) atts' ≡ map (λ (a : Attempt). a.url) atts ++ urls
loop_attempts limit http [] atts atts' h =
    let e : atts' ≡ atts = unfold download_loop in ground arith in rw (e, append-nil)
loop_attempts limit http (u ∷ urls) atts atts' h =
    elim (Fetched-cases (try_download limit (http u))) [
      | inl (tmp', header', e) ↦ absurd (unfold download_loop in ground (arith, e))
      | inr (status, err, e) ↦ elim (Bool-cases (is_too_large err)) [
        | inl big ↦ absurd (ground (arith, after_failure limit http u urls atts status err e, big))
        | inr small ↦
            let rest = download_loop-tail limit http u urls atts atts' status err e small h in
            simp (loop_attempts limit http urls _ atts' rest, map-append, append_assoc)
      ]
    ]

-- A fetch that gives up has tried every mirror once, in order.
pub download_attempts :
    (limit : ℕ) (http : Text → Exchange) (urls : List Text) (atts : List Attempt)
    → download_from_upstreams limit http urls ≡ exhausted atts
    → map (λ (a : Attempt). a.url) atts ≡ urls
unfolding download_from_upstreams
download_attempts limit http urls atts = loop_attempts limit http urls [] atts
