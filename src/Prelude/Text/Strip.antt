-- ===== src/Prelude/Text/Strip.antt =====
-- `strip` on text that is stripped already.
use tinysocs.Prelude.Core.{
  ◌≡◌, ◌≢◌, refl, ap, subst, ◌∙◌, ℕ, false, if◌then◌else◌, [], ◌∷◌, ◌++◌, Bool-cases, inl, inr,
}
use tinysocs.Prelude.Lists.{All}
use tinysocs.Prelude.Text.{Text, is_space, lstrip, rstrip, strip}

rstrip-rstrip : (s : Text) → rstrip (rstrip s) ≡ rstrip s
unfolding rstrip
rstrip-rstrip [] = refl
rstrip-rstrip (c ∷ s) = go (rstrip s) (rstrip-rstrip s)
  where
    go :
        (r : Text)
        → rstrip r ≡ r
        → rstrip (elim r [ [] ↦ if is_space c then [] else c ∷ [] | d ∷ t ↦ c ∷ d ∷ t ])
          ≡ elim r [ [] ↦ if is_space c then [] else c ∷ [] | d ∷ t ↦ c ∷ d ∷ t ]
    go [] e = elim (Bool-cases (is_space c)) [
      | inl space ↦ rw space refl
      | inr solid ↦ rw (solid, solid) refl
    ]
    go (d ∷ t) e = rw e refl

-- Text whose first character, if it has one, is not white space.
abbrev IsFlush : Text → Type 0
IsFlush [] = Unit
IsFlush (c ∷ s) = is_space c ≡ false

lstrip-IsFlush : (s : Text) → IsFlush (lstrip s)
unfolding lstrip
lstrip-IsFlush [] = tt
lstrip-IsFlush (c ∷ s) = elim (Bool-cases (is_space c)) [
  | inl space ↦ rw space (lstrip-IsFlush s)
  | inr solid ↦ rw solid solid
]

lstrip-rstrip : (s : Text) → IsFlush s → lstrip (rstrip s) ≡ rstrip s
unfolding lstrip rstrip
lstrip-rstrip [] h = refl
lstrip-rstrip (c ∷ s) h = go (rstrip s)
  where
    go :
        (r : Text)
        → lstrip (elim r [ [] ↦ if is_space c then [] else c ∷ [] | d ∷ t ↦ c ∷ d ∷ t ])
          ≡ elim r [ [] ↦ if is_space c then [] else c ∷ [] | d ∷ t ↦ c ∷ d ∷ t ]
    go [] = rw (h, h) refl
    go (d ∷ t) = rw h refl

IsFlush-rstrip : (s : Text) → IsFlush s → IsFlush (rstrip s)
unfolding rstrip
IsFlush-rstrip [] h = tt
IsFlush-rstrip (c ∷ s) h = go (rstrip s)
  where
    go :
        (r : Text) → IsFlush (elim r [ [] ↦ if is_space c then [] else c ∷ [] | d ∷ t ↦ c ∷ d ∷ t ])
    go [] = rw h h
    go (d ∷ t) = h

strip-IsFlush : (s : Text) → IsFlush (strip s)
unfolding strip
strip-IsFlush s = IsFlush-rstrip (lstrip s) (lstrip-IsFlush s)

pub lstrip-strip : (s : Text) → lstrip (strip s) ≡ strip s
unfolding strip
lstrip-strip s = lstrip-rstrip (lstrip s) (lstrip-IsFlush s)

pub strip-strip : (s : Text) → strip (strip s) ≡ strip s
unfolding strip
strip-strip s = ap rstrip (lstrip-rstrip (lstrip s) (lstrip-IsFlush s)) ∙ rstrip-rstrip (lstrip s)

-- A text keeps its own if it is appended to another, where it ends in no white space.
pub rstrip-append : (xs ys : Text) → ys ≢ [] → rstrip ys ≡ ys → rstrip (xs ++ ys) ≡ xs ++ ys
unfolding rstrip
rstrip-append [] ys n e = e
rstrip-append (x ∷ xs) ys n e = rw (rstrip-append xs ys n e) (go xs ys n)
  where
    go :
        (a b : Text)
        → b ≢ []
        → elim (a ++ b) [ [] ↦ if is_space x then [] else x ∷ [] | d ∷ t ↦ x ∷ d ∷ t ]
          ≡ x ∷ (a ++ b)
    go [] [] n = absurd (n refl)
    go [] (d ∷ t) n = refl
    go (d ∷ t) b n = refl

pub rstrip-strip : (s : Text) → rstrip (strip s) ≡ strip s
unfolding strip
rstrip-strip s = rstrip-rstrip (lstrip s)

-- A stripped text that is not empty starts with no white space, also before another text.
pub lstrip-append : (xs ys : Text) → xs ≢ [] → strip xs ≡ xs → lstrip (xs ++ ys) ≡ xs ++ ys
unfolding lstrip
lstrip-append [] ys n e = absurd (n refl)
lstrip-append (x ∷ xs) ys n e =
    let solid : is_space x ≡ false = subst IsFlush e (strip-IsFlush (x ∷ xs)) in rw solid refl

module _ {κ} (P : ℕ → Type κ) where
  All-lstrip : (s : Text) → All P s → All P (lstrip s)
  unfolding lstrip
  All-lstrip [] h = tt
  All-lstrip (c ∷ s) h = elim (Bool-cases (is_space c)) [
    | inl e ↦ rw e (All-lstrip s h.1)
    | inr e ↦ rw e h
  ]

  All-rstrip : (s : Text) → All P s → All P (rstrip s)
  unfolding rstrip
  All-rstrip [] h = tt
  All-rstrip (c ∷ s) h = go (rstrip s) (All-rstrip s h.1)
    where
      go :
          (r : Text)
          → All P r
          → All P (elim r [ [] ↦ if is_space c then [] else c ∷ [] | d ∷ t ↦ c ∷ d ∷ t ])
      go [] g = elim (Bool-cases (is_space c)) [ inl e ↦ rw e tt | inr e ↦ rw e (h.0, tt) ]
      go (d ∷ t) g = (h.0, g)

  pub All-strip : (s : Text) → All P s → All P (strip s)
  unfolding strip
  All-strip s h = All-rstrip (lstrip s) (All-lstrip s h)
