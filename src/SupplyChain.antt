-- ===== src/SupplyChain.antt =====
-- internal/supplychain: the allow list and the minimum-age filter (filter.go, allowlist_load.go).
-- The clock is an argument. Durations are int64 nanoseconds, with the wrap-around of the product
-- with an hour and the saturation of a difference of instants.
pub mod Holds
use jo_ei.Prelude.{
  ℕ, Bool, true, false, not, ◌&&◌, ◌||◌, List, [], ◌∷◌, ◌++◌, map, if◌then◌else◌, ◌==◌, keep,
}
use jo_ei.Prelude.Int.{ℤ, mul_int64, sub_sat, add_duration, ltb_ℤ}
use jo_ei.Prelude.Text.{Text, codes, text_eq, contains, trim_space}
use jo_ei.Gate.{PackageRef, PackageMetadata, FilterResult, Reason}

-- The part of the configuration that the filter reads.
pub record SupplyChainConfig : Type 0 where
  pub mode : Text
  pub min_age_hours : ℤ

unfoldable pub new_allowlist : List Text → List Text
new_allowlist = map trim_space

unfoldable pub allowlist_contains : List Text → PackageRef → Bool
allowlist_contains entries r =
    let by_name = r.ecosystem ++ (codes "/" ++ r.name) in
    contains entries by_name || contains entries (by_name ++ (codes "@" ++ r.version))

-- A line of the allow list file that is kept: neither blank nor a comment.
is_entry : Text → Bool
is_entry [] = false
is_entry (c ∷ line) = not (c == b'#')

-- The entries of an allow list file, from its lines.
unfoldable pub load_allowlist : List Text → List Text
unfolding is_entry new_allowlist
load_allowlist lines = new_allowlist (keep is_entry (map trim_space lines))

abbrev pub hour : ℕ
hour = 3600000000000

pub record Filter : Type 0 where
  pub cfg : SupplyChainConfig
  pub allowlist : List Text

-- time.Duration(hours) * time.Hour
unfoldable pub min_age : SupplyChainConfig → ℤ
unfolding mul_int64
min_age cfg = mul_int64 cfg.min_age_hours hour

held : Text → ℕ → ℕ → FilterResult
held mode published until =
    if text_eq mode (codes "dry_run")
    then record {
      allowed = true;
      reason = Reason.dry_run;
      published_at = published;
      block_until = until;
    }
    else record {
      allowed = false;
      reason = Reason.package_younger_than_min_age;
      published_at = published;
      block_until = until;
    }

abbrev passed : Reason → ℕ → FilterResult
passed why published = record {
  allowed = true;
  reason = why;
  published_at = published;
  block_until = 0;
}

unfoldable pub check : Filter → ℕ → PackageRef → PackageMetadata → FilterResult
unfolding held
check f now r meta =
    if text_eq f.cfg.mode (codes "off")
    then passed Reason.off meta.published_at
    else if allowlist_contains f.allowlist r
    then passed Reason.allowlisted meta.published_at
    else if ltb_ℤ (sub_sat now meta.published_at) (min_age f.cfg)
    then held f.cfg.mode meta.published_at (add_duration meta.published_at (min_age f.cfg))
    else passed Reason.ok meta.published_at
