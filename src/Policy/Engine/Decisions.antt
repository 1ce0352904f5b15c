-- ===== src/Policy/Engine/Decisions.antt =====
-- What the policy engine decides, on every branch.
use jo_ei.Prelude.{
  ◌≤◌, ◌≡◌, ◌↔◌, ◌⊎◌, inl, inr, true, false, List, [], ◌∷◌, In, In-any, In-keep, keep-In,
  keep-eq-cons, Bool-cases, arith, refl,
}
use jo_ei.Gate.{Severity, CveFinding, PackageRef, Reason, ScanResult, at_least, rank}
use jo_ei.Gate.Severities.{at_least_mono}
use jo_ei.Policy.Engine.{Engine, matches_index, blocking, decide_findings, evaluate}

-- Why a package is refused: it is on the deny list, or CVE blocking is on, no allow list entry
-- covers it, and a finding reaches the threshold.
abbrev pub Refused : Engine → PackageRef → ScanResult → Type 0
Refused e r result =
    (matches_index e.denylist r ≡ true)
    ⊎ ((matches_index e.allowlist r ≡ false)
        × (e.cve_block ≡ true)
        × ((f : CveFinding) × In f result.findings × (at_least f.severity e.block_on ≡ true)))

-- A finding at the threshold is among the blocking ones.
blocking-ne-nil :
    (t : Severity) (f : CveFinding) (fs : List CveFinding)
    → In f fs
    → at_least f.severity t ≡ true
    → (g : CveFinding) × (gs : List CveFinding) × (blocking t fs ≡ g ∷ gs)
unfolding blocking
blocking-ne-nil t f fs i reach =
    keep-eq-cons (λ g. at_least g.severity t) fs (In-any (λ g. at_least g.severity t) f fs i reach)

pub In-blocking :
    (t : Severity) (f : CveFinding) (fs : List CveFinding)
    → In f (blocking t fs)
    → In f fs × (at_least f.severity t ≡ true)
unfolding blocking
In-blocking t f fs = In-keep (λ g. at_least g.severity t) f fs

pub blocking-In :
    (t : Severity) (f : CveFinding) (fs : List CveFinding)
    → In f fs
    → at_least f.severity t ≡ true
    → In f (blocking t fs)
unfolding blocking
blocking-In t f fs = keep-In (λ g. at_least g.severity t) f fs

evaluate_refuses :
    (e : Engine) (r : PackageRef) (result : ScanResult)
    → Refused e r result
    → (evaluate e r result).allowed ≡ false
unfolding evaluate
evaluate_refuses e r result (inl listed) = ground arith
evaluate_refuses e r result (inr (free, on, (f, i, reach))) =
    let (g, gs, eq) = blocking-ne-nil e.block_on f result.findings i reach in ground arith

-- The last test of the engine, with its equations.
decided :
    (e : Engine) (result : ScanResult) (fs : List CveFinding)
    → blocking e.block_on result.findings ≡ fs
    → (decide_findings fs).allowed ≡ false
    → (f : CveFinding) × In f result.findings × (at_least f.severity e.block_on ≡ true)
decided e result [] eq h = cc
decided e result (f ∷ fs) eq h =
    let (i, reach) = In-blocking e.block_on f result.findings (rw eq (inl refl)) in (f, i, reach)

evaluate_blocked :
    (e : Engine) (r : PackageRef) (result : ScanResult)
    → (evaluate e r result).allowed ≡ false
    → Refused e r result
evaluate_blocked e r result h = elim (Bool-cases (matches_index e.denylist r)) [
  | inl listed ↦ inl listed
  | inr unlisted ↦ inr (
    unfold evaluate in ground arith,
    unfold evaluate in ground arith,
    decided e result _ refl (unfold evaluate in ground arith),
  )
]

-- The engine refuses a package exactly when the deny list covers it, or else CVE blocking is on,
-- the allow list does not cover it, and some finding reaches the threshold.
pub evaluate_iff :
    (e : Engine) (r : PackageRef) (result : ScanResult)
    → ((evaluate e r result).allowed ≡ false) ↔ Refused e r result
evaluate_iff e r result = (evaluate_blocked e r result, evaluate_refuses e r result)

decide_findings-In :
    (f : CveFinding) (fs : List CveFinding)
    → In f (decide_findings fs).findings
    → ((decide_findings fs).reason ≡ Reason.cve_found) × In f fs
decide_findings-In f [] h = absurd h
decide_findings-In f (g ∷ fs) h = (refl, h)

In-decide_findings :
    (f : CveFinding) (fs : List CveFinding) → In f fs → In f (decide_findings fs).findings
In-decide_findings f [] h = absurd h
In-decide_findings f (g ∷ fs) h = h

-- A refusal because of findings reports the findings that reach the threshold, all of them and no
-- other; a refusal by the deny list, and an approval, report none.
pub evaluate_findings :
    (e : Engine) (r : PackageRef) (result : ScanResult) (f : CveFinding)
    → In f (evaluate e r result).findings ↔ (
        ((evaluate e r result).reason ≡ Reason.cve_found)
        × In f result.findings
        × (at_least f.severity e.block_on ≡ true))
unfolding evaluate
evaluate_findings e r result f = (
  λ h. ground (
    arith,
    decide_findings-In f (blocking e.block_on result.findings),
    In-blocking e.block_on f result.findings,
  ),
  λ (why, i, reach). ground (
    arith,
    In-decide_findings f (blocking e.block_on result.findings),
    blocking-In e.block_on f result.findings,
  ),
)

-- Raising the threshold never refuses a package that was allowed.
pub evaluate_mono :
    (e : Engine) (t : Severity) (r : PackageRef) (result : ScanResult)
    → rank e.block_on ≤ rank t
    → (evaluate (record e { block_on = t }) r result).allowed ≡ false
    → (evaluate e r result).allowed ≡ false
evaluate_mono e t r result h blocked = elim (evaluate_blocked _ r result blocked) [
  | inl listed ↦ evaluate_refuses e r result (inl listed)
  | inr (free, on, (f, i, reach)) ↦ evaluate_refuses e r result (
      inr
        (free, on, (f, i, at_least_mono f.severity t f.severity e.block_on reach (omega arith) h)))
]
