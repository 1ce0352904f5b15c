-- ===== src/Gate/Cache.antt =====
-- internal/gate/cache.go: the artifact cache as the handler sees it, an interface over a store of
-- any type. A method that may fail answers whether it succeeded, and the store after the call.
use jo_ei.Prelude.{ℕ, ◌≡◌, ◌⊎◌, Bool, true, Option, none, some}
use jo_ei.Prelude.Text.{Text}
use jo_ei.Gate.{PackageRef, ArtifactEntry}

pub record ArtifactCache (S : Type 0) : Type 0 where
  pub get : PackageRef → S → Option ArtifactEntry × S
  pub put : PackageRef → Text → Bool → S → Bool × S
  pub invalidate : PackageRef → S → Bool × S
  pub mark_cve_checked : PackageRef → ℕ → S → Bool × S
  pub mark_malware_checked : PackageRef → ℕ → S → Bool × S

-- Two entries for the same file, with the same verdict of the scan.
abbrev pub SameArtifact : ArtifactEntry → ArtifactEntry → Type 0
SameArtifact e f = (e.artifact_path ≡ f.artifact_path) × (e.scan_clean ≡ f.scan_clean)

-- What the handler relies on. `Stored r e s` says that the store holds e under r; a call adds no
-- entry but the one it is told to put, and marks change check times only.
pub record CacheLaws {S : Type 0} (c : ArtifactCache S) : Type 1 where
  pub Stored : PackageRef → ArtifactEntry → S → Type 0
  pub Stored-of_get :
      (r : PackageRef) (s : S) (e : ArtifactEntry) → (c.get r s).0 ≡ some e → Stored r e s
  pub get-Stored :
      (r q : PackageRef) (s : S) (e : ArtifactEntry) → Stored q e (c.get r s).1 → Stored q e s
  pub put-Stored :
      (r q : PackageRef) (tmp : Text) (clean : Bool) (s : S) (e : ArtifactEntry)
      → Stored q e (c.put r tmp clean s).1
      → Stored q e s ⊎ ((q ≡ r) × (e.scan_clean ≡ clean))
  pub invalidate-Stored :
      (r q : PackageRef) (s : S) (e : ArtifactEntry)
      → Stored q e (c.invalidate r s).1
      → Stored q e s
  pub invalidate_removes :
      (r : PackageRef) (s : S)
      → (c.invalidate r s).0 ≡ true
      → (c.get r (c.invalidate r s).1).0 ≡ none
  pub mark_cve-Stored :
      (r q : PackageRef) (t : ℕ) (s : S) (e : ArtifactEntry)
      → Stored q e (c.mark_cve_checked r t s).1
      → (f : ArtifactEntry) × Stored q f s × SameArtifact e f
  pub mark_malware-Stored :
      (r q : PackageRef) (t : ℕ) (s : S) (e : ArtifactEntry)
      → Stored q e (c.mark_malware_checked r t s).1
      → (f : ArtifactEntry) × Stored q f s × SameArtifact e f
