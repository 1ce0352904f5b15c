-- ===== src/Proxy/Forward.antt =====
-- internal/proxy/handler.go: the forwarding of requests that are not intercepted. What a mirror
-- answers to the replayed request is a function of its URL: no response, or a status. Headers and
-- the streamed body are left out.
pub mod Replies
use jo_ei.Prelude.{ℕ, Bool, List, [], ◌∷◌, ◌++◌, Option, none, some, ltb, if◌then◌else◌}
use jo_ei.Prelude.Text.{Text}
use jo_ei.Upstream.{Attempt, AttemptError, other, throttled, all_not_found, ThrottleLookup}

-- What one mirror answers: an error, or the status of its response.
pub data MirrorAnswer : Type 0 where
  unreachable : AttemptError → MirrorAnswer
  replied : ℕ → MirrorAnswer

-- What forwardUpstream returns: a response of a mirror, or the attempts where all failed, or the
-- local failure.
pub data Forwarded : Type 0 where
  forwarded : Text → ℕ → Forwarded
  all_failed : List Attempt → Forwarded
  no_upstreams unreadable_body : Forwarded

-- The loop over the mirrors.
unfoldable pub forward_loop : (Text → MirrorAnswer) → List Text → List Attempt → Forwarded
forward_loop ask [] atts = all_failed atts
forward_loop ask (u ∷ urls) atts = elim (ask u) [
  | unreachable e ↦ forward_loop ask urls (atts ++ record { url = u; status = 0; err = e } ∷ [])
  | replied status ↦
      let rest =
        forward_loop ask urls (atts ++ record { url = u; status = status; err = other } ∷ []) in
      if ltb status 400 then forwarded u status else rest
]

-- forwardUpstream, with whether the request's body could be read.
unfoldable pub forward_upstream : (Text → MirrorAnswer) → Bool → List Text → Forwarded
unfolding forward_loop
forward_upstream ask readable [] = no_upstreams
forward_upstream ask readable (u ∷ urls) =
    if readable then forward_loop ask (u ∷ urls) [] else unreadable_body

-- What the client is answered: the response of a mirror, or a status with the wait of its
-- Retry-After (0 for none).
pub data ClientReply : Type 0 where
  streamed : Text → ℕ → ClientReply
  plain_error : ℕ → ℕ → ClientReply

module _ (host_of : Text → Option Text) (lookup : Option ThrottleLookup) where
  throttled_reply : Option (ℕ × ℕ) → ClientReply
  throttled_reply none = plain_error 502 0
  throttled_reply (some (status, retry)) = plain_error status retry

  -- writeForwardError
  unfoldable pub write_forward_error : List Attempt → ClientReply
  unfolding throttled_reply
  write_forward_error atts =
      if all_not_found atts
      then plain_error 404 0
      else throttled_reply (throttled host_of lookup atts)

  -- proxyTransparent, from what forwardUpstream returned.
  unfoldable pub proxy_transparent : Forwarded → ClientReply
  proxy_transparent (forwarded url status) = streamed url status
  proxy_transparent no_upstreams = plain_error 500 0
  proxy_transparent unreadable_body = plain_error 400 0
  proxy_transparent (all_failed atts) = write_forward_error atts
