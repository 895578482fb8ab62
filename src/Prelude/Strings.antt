-- ===== src/Prelude/Strings.antt =====
-- Python's operations on text: over the native `String` where whole texts are joined or compared,
-- and over lists of code points where a text is walked.
use Prim.Native.Char.{code}
use tinysocs.Prelude.Core.{
  ℕ, ◌≡◌, refl, String, Bool, true, false, ◌&&◌, List, [], ◌∷◌, arith, ltb, eqb, if◌then◌else◌,
}

abbrev pub codes : String → List ℕ
codes String.[] = []
codes (String.◌∷◌ c s) = code c ∷ codes s

-- Python orders texts by their code points.
pub codes_le : List ℕ → List ℕ → Bool
codes_le [] ys = true
codes_le (x ∷ xs) [] = false
codes_le (x ∷ xs) (y ∷ ys) = if ltb x y then true else eqb x y && codes_le xs ys

unfoldable pub str_le : String → String → Bool
unfolding codes_le
str_le s t = codes_le (codes s) (codes t)

codes_le_total : (xs ys : List ℕ) → codes_le xs ys ≡ false → codes_le ys xs ≡ true
unfolding codes_le
codes_le_total [] ys h = cc
codes_le_total (x ∷ xs) [] h = refl
codes_le_total (x ∷ xs) (y ∷ ys) h = ground (arith, codes_le_total xs ys)

pub str_le_total : (s t : String) → str_le s t ≡ false → str_le t s ≡ true
unfolding str_le
str_le_total s t h = codes_le_total (codes s) (codes t) h
