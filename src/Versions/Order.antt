-- ===== src/Versions/Order.antt =====
-- The verdicts on versions, told by the order of version numbers.
use tinysocs.Prelude.Core.{
  ◌≡◌, ◌≢◌, ◌↔◌, ◌⊎◌, inl, inr, refl, true, some, [], ◌∷◌, arith, if◌then◌else◌, ◌<◌, ◌+◌,
}
use tinysocs.Prelude.Int.{ℤ, pos_part, neg_part}
use tinysocs.Prelude.Json.{int_eq}
use tinysocs.Prelude.Text.{Text}
use tinysocs.Versions.{
  Version, parse_semver, Status, current, outdated_minor, outdated_major, unknown, compare_versions,
  compare_parsed, version_lt, Manifest, Host, check_host, below_minimum, raise_status,
}

-- Version `a` is older than version `b`.
abbrev pub ◌<ℤ◌ : ℤ → ℤ → Type 0
a <ℤ b = pos_part a + neg_part b < pos_part b + neg_part a

infix 50 ◌<ℤ◌
abbrev pub IsBehind : Version → Version → Type 0
IsBehind a b = (a.minor <ℤ b.minor) ⊎ ((a.minor ≡ b.minor) × (a.patch <ℤ b.patch))

compare_versions-parsed :
    (agent manifest : Text) (a m : Version)
    → parse_semver agent ≡ some a
    → parse_semver manifest ≡ some m
    → compare_versions agent manifest ≡ compare_parsed a m
unfolding compare_versions
compare_versions-parsed agent manifest a m p q = rw (p, q, compare_versions)

compare_parsed-major : (a m : Version) → compare_parsed a m ≡ outdated_major → a.major <ℤ m.major
unfolding compare_parsed
compare_parsed-major a m e = ground arith

compare_parsed-minor :
    (a m : Version) → compare_parsed a m ≡ outdated_minor → (a.major ≡ m.major) × IsBehind a m
unfolding compare_parsed
compare_parsed-minor a m e = ground arith

minor-compare_parsed :
    (a m : Version) → (a.major ≡ m.major) × IsBehind a m → compare_parsed a m ≡ outdated_minor
unfolding compare_parsed
minor-compare_parsed a m h = ground arith

-- For two texts that parse, `compare_versions` says "outdated-major" exactly when the agent's major
-- number is the lower, "outdated-minor" exactly when the major numbers agree and the agent is
-- behind in the minor number or, that being equal, in the patch number, and "current" in every
-- other case; it never says "unknown".
pub compare_versions_iff :
    (agent manifest : Text) (a m : Version)
    → parse_semver agent ≡ some a
    → parse_semver manifest ≡ some m
    → ((compare_versions agent manifest ≡ outdated_major) ↔ (a.major <ℤ m.major))
      × ((compare_versions agent manifest ≡ outdated_minor) ↔ ((a.major ≡ m.major) × IsBehind a m))
      × (compare_versions agent manifest ≢ unknown)
unfolding compare_parsed
compare_versions_iff agent manifest a m p q = rw (compare_versions-parsed agent manifest a m p q) (
  (compare_parsed-major a m, λ h. ground arith),
  (compare_parsed-minor a m, minor-compare_parsed a m),
  λ e. ground arith,
)

-- Version `a` is older than version `b`.
abbrev pub IsOlder : Version → Version → Type 0
IsOlder a b = (a.major <ℤ b.major) ⊎ ((a.major ≡ b.major) × IsBehind a b)

version_lt_iff : (a b : Version) → (version_lt a b ≡ true) ↔ IsOlder a b
version_lt_iff a b = (λ e. ground arith, λ h. ground arith)

-- What the second comparison makes of a status.
abbrev raised : Version → Version → Status → Status
raised a c outdated_minor = if version_lt a c then outdated_major else outdated_minor
raised a c status = status

raise_status-parsed :
    (agent minimum : Text) (status : Status) (a c : Version)
    → parse_semver agent ≡ some a
    → parse_semver minimum ≡ some c
    → raise_status agent minimum status ≡ raised a c status
unfolding raise_status below_minimum parse_semver
raise_status-parsed agent [] status a c p r = cc
raise_status-parsed agent (x ∷ minimum) outdated_minor a c p r = ground arith
raise_status-parsed agent (x ∷ minimum) current a c p r = refl
raise_status-parsed agent (x ∷ minimum) outdated_major a c p r = refl
raise_status-parsed agent (x ∷ minimum) unknown a c p r = refl

raised_major :
    (a v c : Version)
    → (raised a c (compare_parsed a v) ≡ outdated_major)
      ↔ ((a.major <ℤ v.major) ⊎ ((a.major ≡ v.major) × IsBehind a v × IsOlder a c))
unfolding compare_parsed
raised_major a v c = (
  λ e. ground arith,
  λ h. elim h [
    | inl l ↦ ground arith
    | inr (s, b, o) ↦ ground (arith, minor-compare_parsed a v (s, b), (version_lt_iff a c).1 o)
  ],
)

-- A host whose version parses is reported "outdated-major" exactly when its major number is lower
-- than the manifest's, or it is behind the manifest within the same major number and older than
-- the minimum compatible version, if one is set and parses.
pub check_host-major :
    (m : Manifest) (host : Host) (a v c : Version)
    → parse_semver host.agent_version ≡ some a
    → parse_semver m.current_version ≡ some v
    → parse_semver m.minimum_compatible ≡ some c
    → ((check_host m host).status ≡ outdated_major)
      ↔ ((a.major <ℤ v.major) ⊎ ((a.major ≡ v.major) × IsBehind a v × IsOlder a c))
unfolding check_host
check_host-major m host a v c p q r =
    rw
      (
        compare_versions-parsed host.agent_version m.current_version a v p q,
        raise_status-parsed host.agent_version m.minimum_compatible (compare_parsed a v) a c p r,
      )
      (raised_major a v c)
