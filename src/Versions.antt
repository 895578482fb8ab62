-- ===== src/Versions.antt =====
-- reporting/version_check.py (src/tinysocs): comparing an agent's version with the manifest's.
-- Version texts are lists of code points.
pub mod Order
mod Tests
use tinysocs.Prelude.Core.{
  ◌≡◌, Bool, true, false, ◌&&◌, ◌||◌, Option, none, some, List, [], ◌∷◌, if◌then◌else◌,
}
use tinysocs.Prelude.Equality.{◌==◌}
use tinysocs.Prelude.Int.{ℤ, pos, ltb_ℤ, pos_part, neg_part}
use tinysocs.Prelude.Json.{int_eq}
use tinysocs.Prelude.Text.{Text, strip, parse_int, split_on, lstrip_char}

pub record Version : Type 0 where
  pub major : ℤ
  pub minor : ℤ
  pub patch : ℤ

-- The parts after the first are 0 where they are missing, and any after the third are not read.
abbrev part : List Text → Option ℤ
part [] = some (pos 0)
part (p ∷ _) = parse_int p

abbrev rest_of : List Text → List Text
rest_of [] = []
rest_of (_ ∷ ps) = ps

from_parts : List Text → Option Version
from_parts parts = elim (part parts) [
  | none ↦ none
  | some major ↦ elim (part (rest_of parts)) [
    | none ↦ none
    | some minor ↦ elim (part (rest_of (rest_of parts))) [
      | none ↦ none
      | some patch ↦ some (record { major = major; minor = minor; patch = patch })
    ]
  ]
]

unfoldable pub parse_semver : Text → Option Version
unfolding from_parts
parse_semver [] = none
parse_semver (c ∷ s) = from_parts (split_on b'.' (lstrip_char b'v' (strip (c ∷ s))))

pub data Status : Type 0 where
  current outdated_minor outdated_major unknown : Status

-- Tuples are compared from the left.
abbrev pub version_eq : Version → Version → Bool
version_eq a b = a.major == b.major && (a.minor == b.minor && a.patch == b.patch)

abbrev pub version_lt : Version → Version → Bool
version_lt a b =
    ltb_ℤ a.major b.major
    || (a.major == b.major
        && (ltb_ℤ a.minor b.minor || (a.minor == b.minor && ltb_ℤ a.patch b.patch)))

compare_parsed : Version → Version → Status
compare_parsed av mv =
    if version_eq av mv
    then current
    else if ltb_ℤ av.major mv.major
    then outdated_major
    else if version_lt av mv
    then outdated_minor
    else current

unfoldable pub compare_versions : Text → Text → Status
unfolding compare_parsed
compare_versions agent manifest = elim (parse_semver agent) [
  | none ↦ unknown
  | some av ↦ elim (parse_semver manifest) [ none ↦ unknown | some mv ↦ compare_parsed av mv ]
]

-- `status == "outdated-minor" and min_compatible`, then the second comparison
below_minimum : Text → Text → Bool
below_minimum agent minimum = elim (parse_semver agent) [
  | none ↦ false
  | some av ↦ elim (parse_semver minimum) [ none ↦ false | some mc ↦ version_lt av mc ]
]

raise_status : Text → Text → Status → Status
unfolding below_minimum
raise_status agent [] status = status
raise_status agent (c ∷ minimum) outdated_minor =
    if below_minimum agent (c ∷ minimum) then outdated_major else outdated_minor
raise_status agent (c ∷ minimum) status = status

pub record Host : Type 0 where
  pub hostname : Text
  pub agent_version : Text

pub record Check : Type 0 where
  pub hostname : Text
  pub agent_version : Text
  pub manifest_version : Text
  pub minimum_compatible : Text
  pub status : Status

-- `manifest.get("current_version", "")` and `manifest.get("minimum_compatible", "")`
pub record Manifest : Type 0 where
  pub current_version : Text
  pub minimum_compatible : Text

unfoldable pub check_host : Manifest → Host → Check
unfolding raise_status
check_host m host = record {
  hostname = host.hostname;
  agent_version = host.agent_version;
  manifest_version = m.current_version;
  minimum_compatible = m.minimum_compatible;
  status =
      raise_status host.agent_version m.minimum_compatible
        (compare_versions host.agent_version m.current_version);
}

unfoldable pub check_fleet_versions : Manifest → List Host → List Check
check_fleet_versions m [] = []
check_fleet_versions m (host ∷ hosts) = check_host m host ∷ check_fleet_versions m hosts
