-- ===== src/Scanner/Multi.antt =====
-- internal/scanner/multi.go: several malware engines over one file. The engines run at once and all
-- are waited for; their answers, whatever a cancellation made of them, are a list in engine order.
pub mod Closed
use jo_ei.Prelude.{
  Bool, true, false, not, ◌&&◌, List, [], ◌∷◌, Option, none, some, map, if◌then◌else◌,
}
use jo_ei.Prelude.Text.{Text}
use jo_ei.Gate.{AvResult}

-- What one engine returns: an error, or a result, which may be nil.
pub data EngineAnswer : Type 0 where
  engine_error : Text → EngineAnswer
  engine_result : Option AvResult → EngineAnswer

pub data MultiResult : Type 0 where
  scan_error : Text → MultiResult
  scan_result : AvResult → MultiResult

unfoldable pub is_detection : AvResult → Bool
is_detection res = not res.clean && not res.incomplete

-- The loops over results and errors: the first answer of each kind.
detection_or : EngineAnswer → Option AvResult → Option AvResult
detection_or (engine_error e) rest = rest
detection_or (engine_result none) rest = rest
detection_or (engine_result (some res)) rest = if is_detection res then some res else rest

unfoldable pub first_detection : List EngineAnswer → Option AvResult
unfolding detection_or
first_detection [] = none
first_detection (a ∷ answers) = detection_or a (first_detection answers)

error_or : EngineAnswer → Option Text → Option Text
error_or (engine_error e) rest = some e
error_or (engine_result res) rest = rest

unfoldable pub first_error : List EngineAnswer → Option Text
unfolding error_or
first_error [] = none
first_error (a ∷ answers) = error_or a (first_error answers)

incomplete_or : EngineAnswer → Option AvResult → Option AvResult
incomplete_or (engine_error e) rest = rest
incomplete_or (engine_result none) rest = rest
incomplete_or (engine_result (some res)) rest = if res.incomplete then some res else rest

unfoldable pub first_incomplete : List EngineAnswer → Option AvResult
unfolding incomplete_or
first_incomplete [] = none
first_incomplete (a ∷ answers) = incomplete_or a (first_incomplete answers)

abbrev pub all_clean : AvResult
all_clean = record { clean = true; signature = []; engine = []; incomplete = false }

-- MultiScanner.Scan, from the answers of its engines.
unfoldable pub multi_scan : List EngineAnswer → MultiResult
multi_scan answers = elim (first_detection answers) [
  | some res ↦ scan_result res
  | none ↦ elim (first_error answers) [
    | some e ↦ scan_error e
    | none ↦ elim (first_incomplete answers) [
      | some res ↦ scan_result res
      | none ↦ scan_result all_clean
    ]
  ]
]

-- The scanner that the handler is given: an error has no result.
unfoldable pub as_result : MultiResult → Option AvResult
as_result (scan_error e) = none
as_result (scan_result res) = some res
