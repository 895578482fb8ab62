-- ===== src/Versions/Tests.antt =====
-- Runs of the version check, and its theorems at concrete data.
use native.Mathlib.Decide.{ℕ_discrete}
use tinysocs.Prelude.Core.{◌≡◌, refl, some, none}
use tinysocs.Prelude.Int.{pos}
use tinysocs.Prelude.Json.{int_eq}
use tinysocs.Prelude.Strings.{codes}
use tinysocs.Prelude.Text.{strip, parse_int, split_on, lstrip_char}
use tinysocs.Versions.{
  Version, parse_semver, outdated_major, compare_versions, Manifest, Host, check_host,
}

abbrev old : Version
old = record { major = pos 0; minor = pos 8; patch = pos 0 }

abbrev new : Version
new = record { major = pos 0; minor = pos 9; patch = pos 1 }

abbrev least : Version
least = record { major = pos 0; minor = pos 8; patch = pos 5 }

parse_old : parse_semver (codes " v0.8") ≡ some old
unfolding parse_semver strip split_on lstrip_char parse_int
parse_old = refl

parse_new : parse_semver (codes "0.9.1") ≡ some new
unfolding parse_old
parse_new = refl

parse_least : parse_semver (codes "0.8.5") ≡ some least
unfolding parse_old
parse_least = refl

parse_bad : parse_semver (codes "0.x.1") ≡ none
unfolding parse_old
parse_bad = refl

abbrev manifest : Manifest
manifest = record { current_version = codes "0.9.1"; minimum_compatible = codes "0.8.5" }

abbrev host : Host
host = record { hostname = codes "pc"; agent_version = codes " v0.8" }

host_outdated : (check_host manifest host).status ≡ outdated_major
unfolding check_host compare_versions parse_old int_eq ℕ_discrete
host_outdated = refl
