-- ===== src/Proxy/Forward/Replies.antt =====
-- What a forwarded request is answered.
use jo_ei.Prelude.{
  ℕ, ◌<◌, ◌≡◌, refl, ◌↔◌, ◌⊎◌, inl, inr, Bool, true, false, List, [], ◌∷◌, ◌++◌, arith, ltb,
  Bool-cases,
}
use jo_ei.Prelude.Text.{Text}
use jo_ei.Upstream.{Attempt, AttemptError, other}
use jo_ei.Proxy.Forward.{
  MirrorAnswer, unreachable, replied, forwarded, forward_loop, forward_upstream,
}

-- A mirror whose answer is passed over.
abbrev pub fails : MirrorAnswer → Bool
fails (unreachable e) = true
fails (replied status) = ltb 399 status

-- The mirrors before the first one with a status under 400.
pub data Answers (ask : Text → MirrorAnswer) (url : Text) (status : ℕ) : List Text → Type 0 where
  first :
      {urls : List Text}
      → ask url ≡ replied status
      → status < 400
      → Answers ask url status (url ∷ urls)
  next :
      {u : Text} {urls : List Text}
      → fails (ask u) ≡ true
      → Answers ask url status urls
      → Answers ask url status (u ∷ urls)

MirrorAnswer-cases :
    (a : MirrorAnswer)
    → ((e : AttemptError) × (a ≡ unreachable e))
      ⊎ ((status : ℕ) × (a ≡ replied status) × (ltb status 400 ≡ true))
      ⊎ ((status : ℕ) × (a ≡ replied status) × (ltb status 400 ≡ false))
MirrorAnswer-cases (unreachable e) = inl (e, refl)
MirrorAnswer-cases (replied status) = elim (Bool-cases (ltb status 400)) [
  | inl low ↦ inr (inl (status, refl, low))
  | inr high ↦ inr (inr (status, refl, high))
]

loop-Answers :
    (ask : Text → MirrorAnswer) (urls : List Text) (atts : List Attempt) (url : Text) (status : ℕ)
    → forward_loop ask urls atts ≡ forwarded url status
    → Answers ask url status urls
unfolding forward_loop
loop-Answers ask [] atts url status h = absurd (ground arith)
loop-Answers ask (u ∷ urls) atts url status h = elim (MirrorAnswer-cases (ask u)) [
  | inl (e, eq) ↦ next {u = u} {urls = urls} (rw eq) (
      loop-Answers ask urls (atts ++ record { url = u; status = 0; err = e } ∷ []) url status
        (rw (eq, forward_loop) at h))
  | inr (inl (st, eq, low)) ↦
      let same_mirror : u ≡ url = ground (arith, eq, low, h) in
      let same_status : st ≡ status = ground (arith, eq, low, h) in
      rw (← same_mirror, ← same_status) (first {urls = urls} eq (ground (arith, low)))
  | inr (inr (st, eq, high)) ↦ next {u = u} {urls = urls} (rw eq (ground (arith, high))) (
      loop-Answers ask urls (atts ++ record { url = u; status = st; err = other } ∷ []) url status
        (ground (arith, eq, high, h)))
]

Answers-loop :
    (ask : Text → MirrorAnswer) (urls : List Text) (atts : List Attempt) (url : Text) (status : ℕ)
    → Answers ask url status urls
    → forward_loop ask urls atts ≡ forwarded url status
unfolding forward_loop
Answers-loop ask [] atts url status h = elim h [ ]
Answers-loop ask (u ∷ urls) atts url status (first e low) = ground (arith, e)
Answers-loop ask (u ∷ urls) atts url status (next bad rest) = elim (MirrorAnswer-cases (ask u)) [
  | inl (e, eq) ↦ rw (eq, forward_loop) (Answers-loop ask urls _ url status rest)
  | inr (inl (st, eq, low)) ↦ absurd (ground (arith, eq, low, bad))
  | inr (inr (st, eq, high)) ↦ ground (
    arith,
    eq,
    high,
    Answers-loop ask urls (atts ++ record { url = u; status = st; err = other } ∷ []) url status
        rest,
  )
]

-- A request is forwarded to the client with the response of a mirror exactly when the request's
-- body could be read and that mirror is the first one to answer with a status under 400.
pub forward_iff :
    (ask : Text → MirrorAnswer) (readable : Bool) (urls : List Text) (url : Text) (status : ℕ)
    → (forward_upstream ask readable urls ≡ forwarded url status)
      ↔ ((readable ≡ true) × Answers ask url status urls)
unfolding forward_upstream
forward_iff ask readable [] url status = (λ h. absurd (ground arith), λ (r, h). elim h [ ])
forward_iff ask true (u ∷ urls) url status = (
  λ h. (refl, loop-Answers ask (u ∷ urls) [] url status h),
  λ (r, h). Answers-loop ask (u ∷ urls) [] url status h,
)
forward_iff ask false (u ∷ urls) url status =
    (λ h. absurd (ground arith), λ (r, h). absurd (ground arith))
