-- ===== src/Intel/Levels.antt =====
-- The threat level of several answers.
use tinysocs.Prelude.Core.{
  max, ◌≡◌, refl, ℕ, Bool, false, ◌||◌, String, Option, none, some, [], ◌∷◌, ◌++◌, arith,
  Bool-cases, inl, inr,
}
use tinysocs.Prelude.Dict.{Dict}
use tinysocs.Prelude.Int.{ℤ, pos, negsuc}
use tinysocs.Intel.{
  Report, Level, no_threat, low, medium, high, raise_to, max_of, is_malicious, add_score, scan,
  level_of, compute_threat_level,
}

abbrev pub rank : Level → ℕ
rank no_threat = 0
rank low = 1
rank medium = 2
rank high = 3

-- The score of one answer alone.
raise_to-max_of : (o : Option ℤ) (m : ℕ) → raise_to m o ≡ max_of m (raise_to 0 o)
raise_to-max_of none m = ground arith
raise_to-max_of (some (pos n)) m = ground arith
raise_to-max_of (some (negsuc n)) m = ground arith

add_score-max_of : (r : Report) (m : ℕ) → add_score r m ≡ max_of m (add_score r 0)
add_score-max_of r m = ground (arith, raise_to-max_of r.score m)

max_of_assoc : (a b c : ℕ) → max_of (max_of a b) c ≡ max_of a (max_of b c)
max_of_assoc a b c = ground arith

pair : {m n : ℕ} {a b : Bool} → m ≡ n → a ≡ b → ◌≡◌ {A = ℕ × Bool} (m, a) (n, b)
pair e f = rw (e, f) refl

scan-max_of :
    (xs : Dict String Report) (m : ℕ) (b : Bool)
    → scan xs (m, b) ≡ (max_of m (scan xs (0, false)).0, b || (scan xs (0, false)).1)
unfolding scan
scan-max_of [] m b = pair (ground arith) (ground arith)
scan-max_of ((p, r) ∷ xs) m b = elim (Bool-cases r.usable) [
  | inl e ↦
      rw
        (
          e,
          scan-max_of xs (add_score r m) (b || is_malicious r),
          scan-max_of xs (add_score r 0) (is_malicious r),
          add_score-max_of r m,
        )
        (pair (max_of_assoc m (add_score r 0) (scan xs (0, false)).0) (ground arith))
  | inr e ↦ rw (e, scan-max_of xs m b) refl
]

scan-append :
    (xs ys : Dict String Report) (state : ℕ × Bool)
    → scan (xs ++ ys) state ≡ scan ys (scan xs state)
unfolding scan
scan-append [] ys state = refl
scan-append ((p, r) ∷ xs) ys state = scan-append xs ys _

rank-level_of :
    (m n : ℕ) (a b : Bool)
    → rank (level_of (max_of m n, a || b)) ≡ max (rank (level_of (m, a))) (rank (level_of (n, b)))
rank-level_of m n a b = ground arith

-- The threat level of the answers of two groups of providers is the higher of the two groups'
-- levels: no answer lowers the level, and neither the order of the answers nor how often one is
-- given matters.
pub compute_threat_level-append :
    (xs ys : Dict String Report)
    → rank (compute_threat_level (xs ++ ys))
      ≡ max (rank (compute_threat_level xs)) (rank (compute_threat_level ys))
unfolding compute_threat_level
compute_threat_level-append xs ys =
    let (m, b) = scan xs (0, false) in
    let (n, c) = scan ys (0, false) in
    rw (scan-append xs ys (0, false), scan-max_of ys m b) (rank-level_of m n b c)
