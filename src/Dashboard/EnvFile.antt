-- ===== src/Dashboard/EnvFile.antt =====
-- The file assistant.env as api/dashboard.py reads and writes it: the line of the password, and
-- `_write_env_file`. A file is the text that it holds.
use tinysocs.Prelude.Core.{
  ℕ, Bool, false, ◌&&◌, ◌||◌, Option, none, some, List, [], ◌∷◌, ◌++◌, leb, eqb, if◌then◌else◌,
}
use tinysocs.Prelude.Dict.{Dict, lookup}
use tinysocs.Prelude.Equality.{contains}
use tinysocs.Prelude.Text.{Text, text_eq, strip, strip_prefix}

-- The characters at which `splitlines` ends a line.
abbrev pub is_break : ℕ → Bool
is_break c =
    (leb 10 c && leb c 13)
    || ((leb 28 c && leb c 30) || (eqb c 0x85 || (eqb c 0x2028 || eqb c 0x2029)))

abbrev pub prepend : ℕ → List Text → List Text
prepend c [] = (c ∷ []) ∷ []
prepend c (w ∷ ws) = (c ∷ w) ∷ ws

-- `text.splitlines()`, where `after_return` says that the character before was "\r".
unfoldable pub lines_from : Bool → Text → List Text
lines_from after_return [] = []
lines_from after_return (c ∷ s) =
    let rest = lines_from (eqb c 13) s in
    if after_return && eqb c 10 then rest else if is_break c then [] ∷ rest else prepend c rest

abbrev pub splitlines : Text → List Text
splitlines s = lines_from false s

-- `"\n".join(lines) + "\n"`, for at least one line
unfoldable pub join_lines : List Text → Text
join_lines [] = []
join_lines (w ∷ ws) = w ++ (10 ∷ join_lines ws)

abbrev pub file_text : List Text → Text
file_text [] = 10 ∷ []
file_text ws = join_lines ws

-- The text before the first '=', if there is one.
unfoldable pub before_equals : Text → Option Text
before_equals [] = none
before_equals (c ∷ s) =
    let rest = before_equals s in
    if eqb c b'=' then some [] else elim rest [ none ↦ none | some k ↦ some (c ∷ k) ]

-- The key of a line that sets one.
unfoldable pub key_of : Text → Option Text
key_of line = elim (strip line) [
  | [] ↦ none
  | c ∷ s ↦
      if eqb c b'#'
      then none
      else elim (before_equals (c ∷ s)) [ none ↦ none | some k ↦ some (strip k) ]
]

abbrev pub assignment : Text → Text → Text
assignment k v = k ++ (b'=' ∷ v)

-- One line of the file with the updates, and the key that it sets if that is updated.
abbrev pub update_by : Option Text → Dict Text Text → Text → Text × List Text
update_by none updates line = (line, [])
update_by (some k) updates line = elim (lookup k updates) [
  | none ↦ (line, [])
  | some v ↦ (assignment k v, k ∷ [])
]

abbrev pub update_line : Dict Text Text → Text → Text × List Text
update_line updates line = update_by (key_of line) updates line

unfoldable pub update_lines : Dict Text Text → List Text → List Text × List Text
update_lines updates [] = ([], [])
update_lines updates (line ∷ lines) =
    let (out, seen) = update_line updates line in
    let (outs, seens) = update_lines updates lines in (out ∷ outs, seen ++ seens)

-- The keys that no line has set, in their order.
unfoldable pub new_lines : List Text → Dict Text Text → List Text
new_lines seen [] = []
new_lines seen ((k, v) ∷ updates) =
    let rest = new_lines seen updates in if contains seen k then rest else assignment k v ∷ rest

unfoldable pub write_env_file : Dict Text Text → Text → Text
write_env_file updates text =
    let (out, seen) = update_lines updates (splitlines text) in
    file_text (out ++ new_lines seen updates)

-- `line[len("SIEM_PASS="):]` of the first line with a value
unfoldable pub first_value : Text → List Text → Text
first_value prefix [] = []
first_value prefix (line ∷ lines) =
    let rest = first_value prefix lines in
    elim (strip_prefix prefix (strip line)) [
      | none ↦ rest
      | some v ↦ elim (strip v) [ [] ↦ rest | c ∷ s ↦ c ∷ s ]
    ]
