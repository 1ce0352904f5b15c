-- ===== src/Scanner/Multi/Closed.antt =====
-- The combination of engines fails closed.
use jo_ei.Prelude.{
  ◌≡◌, ◌↔◌, refl, inl, inr, Bool, true, false, not, ◌&&◌, List, [], ◌∷◌, none, some, In, all, arith,
  Option-cases, Bool-cases,
}
use jo_ei.Gate.{AvResult}
use jo_ei.Scanner.Multi.{
  EngineAnswer, engine_error, engine_result, scan_result, is_detection, first_detection,
  first_error, first_incomplete, all_clean, multi_scan, as_result,
}

-- An engine has nothing against the file: it scanned all of it and found nothing, or has no result.
abbrev pub is_fine : EngineAnswer → Bool
is_fine (engine_error e) = false
is_fine (engine_result none) = true
is_fine (engine_result (some res)) = res.clean && not res.incomplete

fine_answers :
    (answers : List EngineAnswer)
    → ((first_detection answers ≡ none)
        × (first_error answers ≡ none)
        × (first_incomplete answers ≡ none))
      ↔ (all is_fine answers ≡ true)
unfolding first_detection first_error first_incomplete all is_detection
fine_answers [] = (λ h. refl, λ h. (refl, refl, refl))
fine_answers (engine_error e ∷ answers) = (λ h. absurd (ground arith), λ h. absurd (ground arith))
fine_answers (engine_result none ∷ answers) = fine_answers answers
fine_answers (engine_result (some res) ∷ answers) =
    (λ h. ground (arith, (fine_answers answers).0), λ h. ground (arith, (fine_answers answers).1))

detects :
    (answers : List EngineAnswer) (res : AvResult)
    → first_detection answers ≡ some res
    → In (engine_result (some res)) answers × (is_detection res ≡ true)
unfolding first_detection
detects [] res h = absurd (ground arith)
detects (engine_error e ∷ answers) res h = let (i, d) = detects answers res h in (inr i, d)
detects (engine_result none ∷ answers) res h = let (i, d) = detects answers res h in (inr i, d)
detects (engine_result (some r) ∷ answers) res h = elim (Bool-cases (is_detection r)) [
  | inl e ↦ (inl (ground (arith, e, h)), ground (arith, e, h))
  | inr e ↦ let (i, d) = detects answers res (ground (arith, e, h)) in (inr i, d)
]

-- The first incomplete result is incomplete.
gave_up :
    (answers : List EngineAnswer) (res : AvResult)
    → first_incomplete answers ≡ some res
    → res.incomplete ≡ true
unfolding first_incomplete
gave_up [] res h = absurd (ground arith)
gave_up (engine_error e ∷ answers) res h = gave_up answers res h
gave_up (engine_result none ∷ answers) res h = gave_up answers res h
gave_up (engine_result (some r) ∷ answers) res h = ground (arith, gave_up answers res)

nothing_found :
    (answers : List EngineAnswer) (res : AvResult)
    → as_result (multi_scan answers) ≡ some res
    → res.clean ≡ true
    → res.incomplete ≡ false
    → (first_detection answers ≡ none)
      × (first_error answers ≡ none)
      × (first_incomplete answers ≡ none)
unfolding multi_scan as_result is_detection
nothing_found answers res h c i = elim (Option-cases (first_detection answers)) [
  | inr (r, e) ↦ absurd (ground (arith, e, h, (detects answers r e).1))
  | inl d ↦ elim (Option-cases (first_error answers)) [
    | inr (t, e) ↦ absurd (ground (arith, d, e, h))
    | inl e ↦ elim (Option-cases (first_incomplete answers)) [
      | inr (r, f) ↦ absurd (ground (arith, d, e, f, h, gave_up answers r f))
      | inl f ↦ (d, e, f)
    ]
  ]
]

-- A detection among the answers is not missed.
missed :
    (answers : List EngineAnswer) (found : AvResult)
    → In (engine_result (some found)) answers
    → is_detection found ≡ true
    → ¬ first_detection answers ≡ none
unfolding first_detection
missed [] found i d h = absurd i
missed (engine_error e ∷ answers) found (inl same) d h = absurd (ground arith)
missed (engine_error e ∷ answers) found (inr i) d h = missed answers found i d h
missed (engine_result none ∷ answers) found (inl same) d h = absurd (ground arith)
missed (engine_result none ∷ answers) found (inr i) d h = missed answers found i d h
missed (engine_result (some r) ∷ answers) found (inl same) d h = ground (arith, same, d, h)
missed (engine_result (some r) ∷ answers) found (inr i) d h =
    missed answers found i d (ground (arith, h))

-- The combined scan reports a file as clean and fully scanned exactly when every engine that has a
-- result reports it as clean and fully scanned, and no engine failed.
pub multi_scan_clean_iff :
    (answers : List EngineAnswer)
    → ((res : AvResult) × (as_result (multi_scan answers) ≡ some res)
        × (res.clean ≡ true)
        × (res.incomplete ≡ false))
      ↔ (all is_fine answers ≡ true)
unfolding multi_scan as_result is_detection
multi_scan_clean_iff answers = (
  λ (res, h, c, i). (fine_answers answers).0 (nothing_found answers res h c i),
  λ h.
      let (d, e, i) = (fine_answers answers).1 h in
      (all_clean, ground (arith, d, e, i), refl, refl),
)

-- Where an engine detects malware, the combined result is a detection that some engine made,
-- whatever fails or is left incomplete beside it.
pub multi_scan_detects :
    (answers : List EngineAnswer) (found : AvResult)
    → In (engine_result (some found)) answers
    → is_detection found ≡ true
    → (res : AvResult) × (multi_scan answers ≡ scan_result res)
      × In (engine_result (some res)) answers
      × (is_detection res ≡ true)
unfolding multi_scan
multi_scan_detects answers found i d = elim (Option-cases (first_detection answers)) [
  | inl e ↦ absurd (missed answers found i d e)
  | inr (res, e) ↦ let (j, k) = detects answers res e in (res, ground (arith, e), j, k)
]
