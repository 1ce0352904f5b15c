-- ===== src/Proxy/History.antt =====
-- Sequences of intercepted downloads over one cache: each request brings the configuration that is
-- active when it arrives, so a policy may change between two of them.
use jo_ei.Prelude.{◌≡◌, refl, sym, ◌∙◌, inl, inr, true, List, [], ◌∷◌, ◌++◌, In, arith}
use jo_ei.Prelude.Text.{Text}
use jo_ei.Gate.{PackageRef, FilterResult, ArtifactEntry}
use jo_ei.Gate.Cache.{ArtifactCache, CacheLaws}
use jo_ei.Proxy.Config.{HandlerConfig, Response}
use jo_ei.Proxy.Admission.Cleared.{Admitted}
use jo_ei.Proxy.Admission.Refusals.{is_artifact}
use jo_ei.Proxy.Handler.{World, serve_download}
use jo_ei.Proxy.Handler.Safety.{IsVetted, serve_download-Delivers}

pub record Request (S : Type 0) : Type 0 where
  pub cfg : HandlerConfig S
  pub request_id : Text
  pub ref : PackageRef

module _ {S : Type 0} (cache : ArtifactCache S) where
  -- The request's configuration, over the shared cache.
  abbrev pub shared : Request S → HandlerConfig S
  shared rq = record (rq.cfg) { artifacts = cache }

  unfoldable pub serve : Request S → World S → World S
  serve rq w = serve_download (shared rq) rq.request_id rq.ref w

  unfoldable pub serve_all : List (Request S) → World S → World S
  serve_all [] w = w
  serve_all (rq ∷ rqs) w = serve_all rqs (serve rq w)

  -- One of the requests asked for the package, and every gate that was then configured let it
  -- through.
  abbrev pub AdmittedIn : List (Request S) → PackageRef → Type 0
  AdmittedIn rqs q =
      (rq : Request S) × (tmp : Text) × (sc : FilterResult) × In rq rqs
      × (rq.ref ≡ q)
      × Admitted (shared rq) rq.ref tmp sc

append_last_inj : {A : Type 0} (xs : List A) (a b : A) → xs ++ a ∷ [] ≡ xs ++ b ∷ [] → a ≡ b
append_last_inj [] a b h = cc
append_last_inj (x ∷ xs) a b h = append_last_inj xs a b (cc)

In-append_left : {A : Type 0} (a : A) (xs ys : List A) → In a xs → In a (xs ++ ys)
In-append_left a [] ys h = absurd h
In-append_left a (x ∷ xs) ys h = ground (arith, In-append_left a xs ys)

In-append_last : {A : Type 0} (a : A) (xs : List A) → In a (xs ++ a ∷ [])
In-append_last a [] = inl refl
In-append_last a (x ∷ xs) = inr (In-append_last a xs)

module _ {S : Type 0} {cache : ArtifactCache S} (laws : CacheLaws cache)
    (all_requests : List (Request S)) where
  serve_all-IsVetted :
      (rqs : List (Request S)) (w : World S)
      → ((rq : Request S) → In rq rqs → In rq all_requests)
      → IsVetted laws (AdmittedIn cache all_requests) w.store
      → IsVetted laws (AdmittedIn cache all_requests) (serve_all cache rqs w).store
  unfolding serve_all serve
  serve_all-IsVetted [] w sub h = h
  serve_all-IsVetted (rq ∷ rqs) w sub h =
      serve_all-IsVetted rqs (serve cache rq w) (λ x i. sub x (inr i))
        (serve_download-Delivers (shared cache rq) laws (AdmittedIn cache all_requests)
          rq.request_id rq.ref (λ tmp sc a. (rq, tmp, sc, sub rq (inl refl), refl, a)) w h).0

-- Over a cache that keeps its laws and was empty at first, whatever requests came before: a request
-- that is answered
-- with an artifact is for a package that one of the requests so far, this one included, took
-- through every gate configured at that time.
pub served_was_admitted :
    {S : Type 0} {cache : ArtifactCache S} (laws : CacheLaws cache) (before : List (Request S))
    (now : Request S) (w : World S) (resp : Response)
    → ((q : PackageRef) (e : ArtifactEntry) → ¬ laws.Stored q e w.store)
    → (serve cache now (serve_all cache before w)).responses
      ≡ (serve_all cache before w).responses ++ resp ∷ []
    → is_artifact resp.body ≡ true
    → AdmittedIn cache (before ++ now ∷ []) now.ref
unfolding serve
served_was_admitted {cache} laws before now w resp empty answer sent =
    let every = before ++ now ∷ [] in
    let vetted =
      serve_all-IsVetted laws every before w (λ rq i. In-append_left rq before _ i)
        (λ q e st. absurd (empty q e st)) in
    let (keeps, (r, wrote, held)) =
      serve_download-Delivers (shared cache now) laws (AdmittedIn cache every) now.request_id
        now.ref (λ tmp sc a. (now, tmp, sc, In-append_last now before, refl, a))
        (serve_all cache before w) vetted in
    let same : r ≡ resp = append_last_inj _ r resp (sym wrote ∙ answer) in
    elim held [ inl none_sent ↦ absurd (ground (arith, same, none_sent, sent)) | inr p ↦ p ]
