-- ===== src/Prelude/Text/Numbers.antt =====
-- `int(str(n))` is `n`, and `strip` leaves digits alone.
use tinysocs.Prelude.Core.{
  ◌≡◌, ◌≢◌, refl, ap, ◌∙◌, ℕ, zero, suc, ◌+◌, ◌-◌, ◌*◌, ◌/◌, ◌%◌, ◌<◌, true, some, [], ◌∷◌, ◌++◌,
  arith, ltb, Bool-cases, inl, inr,
}
use tinysocs.Prelude.Lists.{All-append}
use tinysocs.Prelude.Int.{pos}
use tinysocs.Prelude.Text.{
  Text, lstrip, rstrip, strip, is_digit, IsDigits, parse_digits, parse_nat, parse_signed, parse_int,
  show_fuel, show,
}

-- The number that the digits write, onto those read before.
value : ℕ → Text → ℕ
value n [] = n
value n (c ∷ s) = value (n * 10 + (c - b'0')) s

value-snoc : (n : ℕ) (s : Text) (c : ℕ) → value n (s ++ c ∷ []) ≡ value n s * 10 + (c - b'0')
unfolding value
value-snoc n [] c = refl
value-snoc n (d ∷ s) c = value-snoc (n * 10 + (d - b'0')) s c

parse_digits-value : (n : ℕ) (s : Text) → IsDigits s → parse_digits n s ≡ some (value n s)
unfolding parse_digits value
parse_digits-value n [] h = refl
parse_digits-value n (c ∷ []) h = ground arith
parse_digits-value n (c ∷ d ∷ s) h =
    ground (arith, parse_digits-value (n * 10 + (c - b'0')) (d ∷ s) h.1)

IsDigits-show_fuel : (f n : ℕ) → IsDigits (show_fuel f n)
unfolding show_fuel
IsDigits-show_fuel zero n = tt
IsDigits-show_fuel (suc f) n = elim (Bool-cases (ltb n 10)) [
  | inl small ↦ rw small (ground arith, tt)
  | inr large ↦ rw large (
      All-append (λ c. is_digit c ≡ true) (show_fuel f (n / 10)) _ (IsDigits-show_fuel f (n / 10))
        (ground arith, tt))
]

value-show_fuel : (f n : ℕ) → n < f → value 0 (show_fuel f n) ≡ n
unfolding show_fuel value
value-show_fuel zero n h = elim h [ ]
value-show_fuel (suc f) n h =
    ground (arith, value-show_fuel f (n / 10), value-snoc 0 (show_fuel f (n / 10)) (b'0' + n % 10))

lstrip-digits : (s : Text) → IsDigits s → lstrip s ≡ s
unfolding lstrip
lstrip-digits [] h = refl
lstrip-digits (c ∷ s) h = ground arith

rstrip-digits : (s : Text) → IsDigits s → rstrip s ≡ s
unfolding rstrip
rstrip-digits [] h = refl
rstrip-digits (c ∷ []) h = ground arith
rstrip-digits (c ∷ d ∷ s) h = rw (rstrip-digits (d ∷ s) h.1, rstrip) refl

pub strip-digits : (s : Text) → IsDigits s → strip s ≡ s
unfolding strip
strip-digits s h = rw (lstrip-digits s h) (rstrip-digits s h)

pub IsDigits-show : (n : ℕ) → IsDigits (show n)
unfolding show
IsDigits-show n = IsDigits-show_fuel (suc n) n

parse_signed-digits : (s : Text) → IsDigits s → s ≢ [] → parse_signed s ≡ some (pos (value 0 s))
unfolding parse_signed parse_nat
parse_signed-digits [] h n = absurd (n refl)
parse_signed-digits (c ∷ s) h n = ground (arith, parse_digits-value 0 (c ∷ s) h)

append-ne-nil : (s : Text) (c : ℕ) → s ++ c ∷ [] ≢ []
append-ne-nil [] c e = cc
append-ne-nil (d ∷ s) c e = cc

show_fuel-ne-nil : (f n : ℕ) → show_fuel (suc f) n ≢ []
unfolding show_fuel
show_fuel-ne-nil f n = elim (Bool-cases (ltb n 10)) [
  | inl small ↦ rw small (λ e. cc)
  | inr large ↦ rw large (append-ne-nil (show_fuel f (n / 10)) (b'0' + n % 10))
]

-- `int(str(n))` gives `n` back.
pub parse_int-show : (n : ℕ) → parse_int (show n) ≡ some (pos n)
unfolding parse_int show
parse_int-show n = rw (strip-digits (show_fuel (suc n) n) (IsDigits-show_fuel (suc n) n)) (
    parse_signed-digits _ (IsDigits-show_fuel (suc n) n) (show_fuel-ne-nil n n)
    ∙ ap (λ (k : ℕ). some (pos k)) (value-show_fuel (suc n) n (omega arith)))
