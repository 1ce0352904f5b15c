-- ===== src/Proxy/Admission/Refusals.antt =====
-- What every refused request is told.
use jo_ei.Prelude.{◌≡◌, ◌⊎◌, Bool, true, false, Option, none, some, arith}
use jo_ei.Prelude.Text.{Text}
use jo_ei.Gate.{PackageRef, PackageMetadata, Event, Verdict}
use jo_ei.Proxy.Config.{HandlerConfig, Response, Body, artifact, outcome}
use jo_ei.Proxy.Admission.{
  Checked, refused, passed, ◌>>=◌, check_supply_chain, metadata_gate, cve_gate, download_gate,
  malware_gate, gates, admit,
}

abbrev pub is_artifact : Body → Bool
is_artifact (artifact path) = true
is_artifact b = false

-- The event and the response have one status, the verdict is a block or an error, and no
-- artifact is sent.
pub record IsRefusal (ev : Event) (resp : Response) : Type 0 where
  pub same_status : ev.http_status ≡ resp.status
  pub verdict : (ev.verdict ≡ Verdict.block) ⊎ (ev.verdict ≡ Verdict.error)
  pub no_artifact : is_artifact resp.body ≡ false

-- Every refusal that the gate can answer is one.
abbrev WellRefused : {A : Type 0} → Checked A → Type 0
WellRefused m = (ev : Event) (resp : Response) → m ≡ refused ev resp → IsRefusal ev resp

WellRefused-bind :
    {A B : Type 0} (m : Checked A) (f : A → Checked B)
    → WellRefused m
    → ((a : A) → WellRefused (f a))
    → WellRefused (m >>= f)
WellRefused-bind (refused e r) f hm hf ev resp h = hm ev resp (cc)
WellRefused-bind (passed a) f hm hf ev resp h = hf a ev resp h

WellRefused-passed : {A : Type 0} (a : A) → WellRefused (passed a)
WellRefused-passed a ev resp h = absurd (ground arith)

module _ {S : Type 0} (cfg : HandlerConfig S) (request_id : Text) (ref : PackageRef) where
  supply_refusal :
      (meta : PackageMetadata) → WellRefused (check_supply_chain cfg request_id ref meta)
  unfolding check_supply_chain outcome
  supply_refusal meta ev resp h = ground arith

  metadata_refusal : WellRefused (metadata_gate cfg request_id ref)
  unfolding metadata_gate outcome
  metadata_refusal ev resp h = ground arith

  cve_refusal : WellRefused (cve_gate cfg request_id ref)
  unfolding cve_gate outcome
  cve_refusal ev resp h = ground arith

  download_refusal : WellRefused (download_gate cfg request_id ref)
  unfolding download_gate outcome
  download_refusal ev resp h = ground arith

  malware_refusal : (tmp : Text) → WellRefused (malware_gate cfg request_id ref tmp)
  unfolding malware_gate outcome
  malware_refusal tmp ev resp h = ground arith

  gates_refusal : (ex : Option (Text → PackageMetadata)) → WellRefused (gates cfg request_id ref ex)
  unfolding gates
  gates_refusal none = WellRefused-bind _ _ metadata_refusal λ sc.
      WellRefused-bind _ _ cve_refusal λ _.
        WellRefused-bind _ _ download_refusal
          λ d. WellRefused-bind _ _ (malware_refusal d.0) λ _. WellRefused-passed (d.0, sc)
  gates_refusal (some extract) = WellRefused-bind _ _ cve_refusal λ _.
      WellRefused-bind _ _ download_refusal λ d.
        WellRefused-bind _ _ (supply_refusal (extract d.1))
          λ sc. WellRefused-bind _ _ (malware_refusal d.0) λ _. WellRefused-passed (d.0, sc)

  -- A request that a gate stops is answered with the status that its event records, the verdict is
  -- a block or an error, and no artifact is sent.
  pub admit-IsRefusal :
      (ev : Event) (resp : Response)
      → admit cfg request_id ref ≡ refused ev resp
      → IsRefusal ev resp
  unfolding admit
  admit-IsRefusal = gates_refusal cfg.extractor
