-- ===== src/Prelude/Text.antt =====
-- Text that the code walks, as the list of its code points, with Python's `strip`, `lower`,
-- `str(int)` and `int(str)`. Case is that of the code points below 256, which is all that an HTTP
-- header holds.
pub mod Numbers
pub mod Strip
use native.Mathlib.Decide.{ℕ_discrete}
use tinysocs.Prelude.Core.{
  ◌≡◌, refl, sym, ap, ◌∙◌, ℕ, zero, suc, ◌+◌, ◌-◌, ◌*◌, ◌/◌, ◌%◌, ◌<◌, ◌≤◌, Bool, true, false, ◌&&◌,
  ◌||◌, Option, none, some, List, [], ◌∷◌, ◌++◌, arith, ltb, leb, eqb, if◌then◌else◌,
}
use tinysocs.Prelude.Equality.{Eq}
use tinysocs.Prelude.Lists.{All, All-append}
use tinysocs.Prelude.Int.{ℤ, pos, negsuc, sub_ℕ}

abbrev pub Text : Type 0
Text = List ℕ

Text-discrete : Discrete Text
Text-discrete = hlevel ℕ_discrete

instance unfoldable pub text_eq : Eq Text
unfolding Text-discrete ℕ_discrete
text_eq = record { dec = Text-discrete }

unfoldable pub is_space : ℕ → Bool
is_space c =
    (leb 9 c && leb c 13)
    || ((leb 28 c && leb c 32)
        || (eqb c 0x85
            || (eqb c 0xa0
                || (eqb c 0x1680
                    || ((leb 0x2000 c && leb c 0x200a)
                        || (eqb c 0x2028
                            || (eqb c 0x2029
                                || (eqb c 0x202f || (eqb c 0x205f || eqb c 0x3000)))))))))

unfoldable pub lstrip : Text → Text
unfolding is_space
lstrip [] = []
lstrip (c ∷ s) = if is_space c then lstrip s else c ∷ s

-- Without the white space at the end.
unfoldable pub rstrip : Text → Text
unfolding is_space
rstrip [] = []
rstrip (c ∷ s) =
    let rest = rstrip s in elim rest [ [] ↦ if is_space c then [] else c ∷ [] | d ∷ t ↦ c ∷ d ∷ t ]

unfoldable pub strip : Text → Text
unfolding lstrip rstrip
strip s = rstrip (lstrip s)

unfoldable pub lower_char : ℕ → ℕ
lower_char c =
    if (leb b'A' c && leb c b'Z')
      || ((leb 192 c && leb c 222) && (if eqb c 215 then false else true))
    then c + 32
    else c

unfoldable pub lower : Text → Text
unfolding lower_char
lower [] = []
lower (c ∷ s) = lower_char c ∷ lower s

-- `s[len(p):]` if `s` starts with `p`
unfoldable pub strip_prefix : Text → Text → Option Text
strip_prefix [] s = some s
strip_prefix (p ∷ ps) [] = none
strip_prefix (p ∷ ps) (c ∷ s) = if eqb p c then strip_prefix ps s else none

abbrev pub is_digit : ℕ → Bool
is_digit c = leb b'0' c && leb c b'9'

-- The digits of a number in `int(str)`: single underscores may stand between digits.
pub parse_digits : ℕ → Text → Option ℕ
parse_digits n [] = some n
parse_digits n (c ∷ []) = if is_digit c then some (n * 10 + (c - b'0')) else none
parse_digits n (c ∷ d ∷ s) =
    let after_digit = parse_digits (n * 10 + (c - b'0')) (d ∷ s) in
    let after_mark = (if is_digit d then parse_digits n (d ∷ s) else none) in
    if is_digit c then after_digit else if eqb c b'_' then after_mark else none

abbrev negate : ℕ → ℤ
negate n = sub_ℕ 0 n

-- A number starts with a digit.
pub parse_nat : Text → Option ℕ
unfolding parse_digits
parse_nat [] = none
parse_nat (c ∷ s) = if is_digit c then parse_digits 0 (c ∷ s) else none

pub parse_signed : Text → Option ℤ
unfolding parse_nat
parse_signed [] = none
parse_signed (c ∷ s) =
    if eqb c b'-'
    then elim (parse_nat s) [ none ↦ none | some n ↦ some (negate n) ]
    else if eqb c b'+'
    then elim (parse_nat s) [ none ↦ none | some n ↦ some (pos n) ]
    else elim (parse_nat (c ∷ s)) [ none ↦ none | some n ↦ some (pos n) ]

-- `int(s)`; none is the ValueError.
unfoldable pub parse_int : Text → Option ℤ
unfolding parse_signed strip
parse_int s = parse_signed (strip s)

-- `str(n)`. The fuel is more than the number of digits.
pub show_fuel : ℕ → ℕ → Text
show_fuel zero n = []
show_fuel (suc f) n =
    let rest = show_fuel f (n / 10) in
    if ltb n 10 then (b'0' + n) ∷ [] else rest ++ ((b'0' + n % 10) ∷ [])

unfoldable pub show : ℕ → Text
unfolding show_fuel
show n = show_fuel (suc n) n

abbrev pub IsDigits : Text → Type 0
IsDigits = All (λ c. is_digit c ≡ true)

-- `s.split(sep)` for a single character
unfoldable pub split_on : ℕ → Text → List Text
split_on sep [] = [] ∷ []
split_on sep (c ∷ s) =
    let rest = split_on sep s in
    if eqb c sep then [] ∷ rest else elim rest [ [] ↦ (c ∷ []) ∷ [] | w ∷ ws ↦ (c ∷ w) ∷ ws ]

-- `s.lstrip(ch)`
unfoldable pub lstrip_char : ℕ → Text → Text
lstrip_char ch [] = []
lstrip_char ch (c ∷ s) = if eqb c ch then lstrip_char ch s else c ∷ s

-- `s.rstrip(ch)`
unfoldable pub rstrip_char : ℕ → Text → Text
rstrip_char ch [] = []
rstrip_char ch (c ∷ s) =
    let rest = rstrip_char ch s in
    elim rest [ [] ↦ if eqb c ch then [] else c ∷ [] | d ∷ t ↦ c ∷ d ∷ t ]
