-- ===== src/SupplyChain/Holds.antt =====
-- How long the minimum-age filter holds a version back.
use jo_ei.Prelude.{ℕ, ◌+◌, ◌-◌, ◌*◌, ◌^◌, ◌≤◌, ◌<◌, ◌≡◌, ◌↔◌, true, false, ltb, leb, arith}
use jo_ei.Prelude.Int.{pos, negsuc, mul_int64, sub_sat, sub_sat-lt, add_duration, ltb_ℤ}
use jo_ei.Prelude.Text.{codes, text_eq}
use jo_ei.Gate.{PackageRef, PackageMetadata, Reason}
use jo_ei.SupplyChain.{Filter, check, min_age, hour, allowlist_contains}

-- Up to 2562047 hours, some 292 years, the duration is the product that was meant.
min_age_exact : (hours : ℕ) → hours ≤ 2562047 → mul_int64 (pos hours) hour ≡ pos (hours * hour)
unfolding mul_int64
min_age_exact hours h = ground arith

-- Beyond, and up to twice as far, it is negative.
min_age_wraps :
    (hours : ℕ)
    → 2562048 ≤ hours
    → hours ≤ 5124095
    → (d : ℕ) × (mul_int64 (pos hours) hour ≡ negsuc d)
unfolding mul_int64
min_age_wraps hours h k = (2 ^ 64 - 1 - hours * hour, ground arith)

-- The mode under which the filter blocks: any but these two, since the code compares with no
-- other.
abbrev pub Enforces : Filter → Type 0
Enforces f =
    (text_eq f.cfg.mode (codes "off") ≡ false) × (text_eq f.cfg.mode (codes "dry_run") ≡ false)

-- The duration and the test of the filter, for a minimum age in range.
young :
    (f : Filter) (hours now published : ℕ)
    → f.cfg.min_age_hours ≡ pos hours
    → hours ≤ 2562047
    → ltb_ℤ (sub_sat now published) (min_age f.cfg) ≡ ltb now (published + hours * hour)
unfolding min_age
young f hours now published e h =
    rw (e, min_age_exact hours h) (sub_sat-lt now published (hours * hour) (omega arith))

until :
    (f : Filter) (hours published : ℕ)
    → f.cfg.min_age_hours ≡ pos hours
    → hours ≤ 2562047
    → add_duration published (min_age f.cfg) ≡ published + hours * hour
unfolding min_age
until f hours published e h = rw (e, min_age_exact hours h) (omega arith)

module _ (f : Filter) (hours : ℕ) (r : PackageRef) (meta : PackageMetadata)
    (cfg : f.cfg.min_age_hours ≡ pos hours) (range : hours ≤ 2562047) where
  -- For a minimum age of at most 2562047 hours the filter blocks a version exactly when it
  -- enforces, no allow list entry covers the version, and less than that many hours have passed
  -- since it was published.
  pub check_blocks_iff :
      (now : ℕ)
      → ((check f now r meta).allowed ≡ false) ↔ (
          Enforces f
          × (allowlist_contains f.allowlist r ≡ false)
          × (now < meta.published_at + hours * hour))
  unfolding check
  check_blocks_iff now = (
    λ h. ground (arith, young f hours now meta.published_at cfg range),
    λ h. ground (arith, young f hours now meta.published_at cfg range),
  )

  -- For such a minimum age the time that a block reports is exact: the same version is still
  -- blocked at every earlier time and allowed from that time on.
  pub hold_ends :
      (now later : ℕ)
      → (check f now r meta).allowed ≡ false
      → (check f later r meta).allowed ≡ leb (check f now r meta).block_until later
  unfolding check
  hold_ends now later h = ground (
    arith,
    young f hours now meta.published_at cfg range,
    young f hours later meta.published_at cfg range,
    until f hours meta.published_at cfg range,
  )

-- The filter in dry-run mode.
abbrev pub dry : Filter → Filter
dry f = record f { cfg = record { mode = codes "dry_run"; min_age_hours = f.cfg.min_age_hours } }

-- In dry-run mode the filter allows every version, and reports a dry run, with the end of the
-- hold, exactly for the versions that the same filter blocks where it enforces.
pub dry_run_reports :
    (f : Filter) (now : ℕ) (r : PackageRef) (meta : PackageMetadata)
    → Enforces f
    → ((check (dry f) now r meta).allowed ≡ true)
      × ((check (dry f) now r meta).block_until ≡ (check f now r meta).block_until)
      × (((check (dry f) now r meta).reason ≡ Reason.dry_run)
          ↔ ((check f now r meta).allowed ≡ false))
unfolding check min_age text_eq
dry_run_reports f now r meta enforces =
    (ground arith, ground arith, (λ h. ground arith, λ h. ground arith))

-- A minimum age between 2562048 and 5124095 hours overflows the duration: the filter then allows
-- every version that was not published in the future.
pub overlong_min_age_allows :
    (f : Filter) (hours now : ℕ) (r : PackageRef) (meta : PackageMetadata)
    → f.cfg.min_age_hours ≡ pos hours
    → 2562048 ≤ hours
    → hours ≤ 5124095
    → meta.published_at ≤ now
    → (check f now r meta).allowed ≡ true
unfolding check min_age sub_sat
overlong_min_age_allows f hours now r meta cfg low high past =
    let (d, e) = min_age_wraps hours low high in ground (arith, cfg, e)
