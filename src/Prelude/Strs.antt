-- ===== src/Prelude/Strs.antt =====
-- The operations of `str` that the source uses, on texts of ASCII codes.
use Prim.Native.Nat.{ℕ, ◌-◌}
use mathlib.Core.Bool.{Bool, true, false, ◌&&◌, ◌||◌, not}
use mathlib.Core.List.{List, [], ◌∷◌, ◌++◌, map}
use mathlib.Core.Option.{Option, none, some}
use memo_build.Prelude.Tests.{if◌then◌else◌, ◌==◌, leb, ltb}
use memo_build.Prelude.Texts.{Text}

-- Tab, line feed, vertical tab, form feed, carriage return and space.
abbrev pub is_whitespace : ℕ → Bool
is_whitespace c = leb 9 c && leb c 13 || c == 32

abbrev pub starts_with_code : Text → ℕ → Bool
starts_with_code [] c = false
starts_with_code (a ∷ s) c = a == c

abbrev pub is_empty : Text → Bool
is_empty [] = true
is_empty (a ∷ s) = false

abbrev pub cons_first : ℕ → List Text → List Text
cons_first c [] = (c ∷ []) ∷ []
cons_first c (w ∷ ws) = (c ∷ w) ∷ ws

-- A line ends at a line feed or at a carriage return and a line feed; a last empty line is none.
unfoldable pub lines : Text → List Text
lines [] = []
lines (c ∷ s) =
    let rest = lines s in
    if c == 10
    then [] ∷ rest
    else if c == 13 && starts_with_code s 10
    then rest
    else cons_first c rest

unfoldable pub trim_start : Text → Text
trim_start [] = []
trim_start (c ∷ s) = let rest = trim_start s in if is_whitespace c then rest else c ∷ s

unfoldable pub trim_end : Text → Text
trim_end [] = []
trim_end (c ∷ s) =
    let rest = trim_end s in if is_empty rest && is_whitespace c then [] else c ∷ rest

unfoldable pub trim : Text → Text
unfolding trim_start trim_end
trim s = trim_end (trim_start s)

abbrev goes_on : Text → Bool
goes_on [] = false
goes_on (a ∷ s) = not (is_whitespace a)

unfoldable pub split_whitespace : Text → List Text
split_whitespace [] = []
split_whitespace (c ∷ s) =
    let rest = split_whitespace s in
    if is_whitespace c then rest else if goes_on s then cons_first c rest else (c ∷ []) ∷ rest

abbrev upper : ℕ → ℕ
upper c = if leb 97 c && leb c 122 then c - 32 else c

abbrev pub to_uppercase : Text → Text
to_uppercase = map upper

abbrev cons_left : ℕ → Option (Text × Text) → Option (Text × Text)
cons_left c none = none
cons_left c (some (a, b)) = some (c ∷ a, b)

-- `splitn(2, [' ', '='])` where it gives two parts.
unfoldable pub split_env : Text → Option (Text × Text)
split_env [] = none
split_env (c ∷ s) =
    let rest = split_env s in if c == 32 || c == 61 then some ([], s) else cons_left c rest

unfoldable pub is_prefix : Text → Text → Bool
is_prefix [] t = true
is_prefix (a ∷ s) [] = false
is_prefix (a ∷ s) (b ∷ t) = a == b && is_prefix s t

-- `text.contains(pattern)`
unfoldable pub contains_str : Text → Text → Bool
unfolding is_prefix
contains_str [] pat = is_prefix pat []
contains_str (c ∷ s) pat = is_prefix pat (c ∷ s) || contains_str s pat

abbrev pub ends_with_slash : Text → Bool
ends_with_slash [] = false
ends_with_slash (c ∷ []) = c == b'/'
ends_with_slash (c ∷ d ∷ s) = ends_with_slash (d ∷ s)

-- `Path::join`: an absolute path replaces the one that it is joined to.
unfoldable pub join : Text → Text → Text
join root path =
    if starts_with_code path b'/'
    then path
    else if is_empty root || ends_with_slash root
    then root ++ path
    else root ++ (b'/' ∷ path)

-- The order of `String`, by codes.
unfoldable pub text_leb : Text → Text → Bool
text_leb [] t = true
text_leb (a ∷ s) [] = false
text_leb (a ∷ s) (b ∷ t) = ltb a b || (a == b && text_leb s t)
