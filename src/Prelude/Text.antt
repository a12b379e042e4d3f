-- ===== src/Prelude/Text.antt =====
-- What the program uses of Python's `str`: `strip`, `lower` and emptiness, over the native text.

use Prim.Native.Char.{Char, code}
use Prim.Native.String.{String, [], ◌∷◌, ◌++◌ as str_append}
use text.Mathlib.Text.{◌==◌ as str_eq}
use Prim.Native.Nat.{ℕ}
use mathlib.Core.List.{List}
use mathlib.Core.Bool.{Bool, true, false, ◌&&◌, ◌||◌}
use iam_sentinel_ese.Prelude.Tests.{leb, nat_beq, if◌then◌else◌}

-- the code points that `str.strip()` removes: those with `str.isspace()`
unfoldable pub is_space : Char → Bool
is_space ch =
    let c = code ch in
    (leb 9 c && leb c 13)
    || (leb 28 c && leb c 32)
    || nat_beq c 133
    || nat_beq c 160
    || nat_beq c 5760
    || (leb 8192 c && leb c 8202)
    || nat_beq c 8232
    || nat_beq c 8233
    || nat_beq c 8239
    || nat_beq c 8287
    || nat_beq c 12288

abbrev pub is_empty : String → Bool
is_empty [] = true
is_empty (c ∷ s) = false

unfoldable pub lstrip : String → String
unfolding is_space
lstrip [] = []
lstrip (c ∷ s) = let rest = lstrip s in if is_space c then rest else c ∷ s

-- drop a trailing space once the rest is stripped
abbrev cons_unless_blank : Char → String → String
cons_unless_blank c [] = if is_space c then [] else c ∷ []
cons_unless_blank c (d ∷ s) = c ∷ (d ∷ s)

unfoldable pub rstrip : String → String
unfolding is_space
rstrip [] = []
rstrip (c ∷ s) = cons_unless_blank c (rstrip s)

unfoldable pub strip : String → String
unfolding lstrip rstrip
strip s = rstrip (lstrip s)

-- the code points of a text
abbrev pub codes : String → List ℕ
codes [] = List.[]
codes (c ∷ s) = List.◌∷◌ (code c) (codes s)

infixr 67 ◌⋮◌
abbrev ◌⋮◌ : ℕ × Char → List (ℕ × Char) → List (ℕ × Char)
◌⋮◌ = List.◌∷◌

-- the capital letters of ASCII, each with its small letter
abbrev capitals : List (ℕ × Char)
capitals =
    (65, "a")
    ⋮ (66, "b")
    ⋮ (67, "c")
    ⋮ (68, "d")
    ⋮ (69, "e")
    ⋮ (70, "f")
    ⋮ (71, "g")
    ⋮ (72, "h")
    ⋮ (73, "i")
    ⋮ (74, "j")
    ⋮ (75, "k")
    ⋮ (76, "l")
    ⋮ (77, "m")
    ⋮ (78, "n")
    ⋮ (79, "o")
    ⋮ (80, "p")
    ⋮ (81, "q")
    ⋮ (82, "r")
    ⋮ (83, "s")
    ⋮ (84, "t")
    ⋮ (85, "u")
    ⋮ (86, "v")
    ⋮ (87, "w")
    ⋮ (88, "x")
    ⋮ (89, "y")
    ⋮ (90, "z")
    ⋮ List.[]

abbrev small_of : Char → List (ℕ × Char) → Char
small_of ch List.[] = ch
small_of ch (List.◌∷◌ (capital, small) rest) =
    if nat_beq (code ch) capital then small else small_of ch rest

-- `str.lower()` on the letters of ASCII; every other character stays
unfoldable pub lower : String → String
lower [] = []
lower (ch ∷ s) = small_of ch capitals ∷ lower s

-- `s.startswith(prefix)`
unfoldable pub has_prefix : String → String → Bool
has_prefix [] s = true
has_prefix (a ∷ p) [] = false
has_prefix (a ∷ p) (c ∷ s) = nat_beq (code a) (code c) && has_prefix p s

-- `s[:-1]`
abbrev keep_front : Char → String → String → String
keep_front c [] front = []
keep_front c (d ∷ s) front = c ∷ front

unfoldable pub drop_last : String → String
drop_last [] = []
drop_last (c ∷ s) = keep_front c s (drop_last s)

-- `s.endswith(suffix)`
unfoldable pub has_suffix : String → String → Bool
has_suffix suffix [] = is_empty suffix
has_suffix suffix (c ∷ s) = str_eq suffix (c ∷ s) || has_suffix suffix s

-- `s.split(sep)[0]`
unfoldable pub before : ℕ → String → String
before sep [] = []
before sep (c ∷ s) = let front = before sep s in if nat_beq (code c) sep then [] else c ∷ front

-- `s <= t`, by code points
unfoldable pub string_leb : String → String → Bool
string_leb [] t = true
string_leb (a ∷ s) [] = false
string_leb (a ∷ s) (b ∷ t) =
    let rest = string_leb s t in if nat_beq (code a) (code b) then rest else leb (code a) (code b)

-- `"".join(parts)`, and what an f-string prints for the parts between its braces
abbrev pub concat_text : List String → String
concat_text List.[] = []
concat_text (List.◌∷◌ s ss) = str_append s (concat_text ss)

-- `needle in s`
unfoldable pub has_part : String → String → Bool
has_part needle [] = is_empty needle
has_part needle (c ∷ s) = has_prefix needle (c ∷ s) || has_part needle s

-- `s.split(sep)[-1]`, for a separator of one character
unfoldable pub has_code : ℕ → String → Bool
has_code sep [] = false
has_code sep (c ∷ s) = nat_beq (code c) sep || has_code sep s

unfoldable pub after_last : ℕ → String → String
after_last sep [] = []
after_last sep (c ∷ s) = let rest = after_last sep s in if has_code sep (c ∷ s) then rest else c ∷ s

-- `s.strip("\"'")`
abbrev is_quote : Char → Bool
is_quote c = nat_beq (code c) 34 || nat_beq (code c) 39

abbrev lstrip_quotes : String → String
lstrip_quotes [] = []
lstrip_quotes (c ∷ s) = let rest = lstrip_quotes s in if is_quote c then rest else c ∷ s

abbrev cons_unless_quote : Char → String → String
cons_unless_quote c [] = if is_quote c then [] else c ∷ []
cons_unless_quote c (d ∷ s) = c ∷ (d ∷ s)

abbrev rstrip_quotes : String → String
rstrip_quotes [] = []
rstrip_quotes (c ∷ s) = cons_unless_quote c (rstrip_quotes s)

unfoldable pub strip_quote_marks : String → String
strip_quote_marks s = rstrip_quotes (lstrip_quotes s)

-- `s.split(sep)`, for a separator of one character
abbrev add_first : Char → List String → List String
add_first c List.[] = List.◌∷◌ (c ∷ []) List.[]
add_first c (List.◌∷◌ part parts) = List.◌∷◌ (c ∷ part) parts

unfoldable pub split_at : ℕ → String → List String
split_at sep [] = List.◌∷◌ "" List.[]
split_at sep (c ∷ s) =
    let rest = split_at sep s in if nat_beq (code c) sep then List.◌∷◌ "" rest else add_first c rest

-- `s.lstrip("+-")`
unfoldable pub strip_signs : String → String
strip_signs [] = []
strip_signs (c ∷ s) =
    let rest = strip_signs s in if nat_beq (code c) 43 || nat_beq (code c) 45 then rest else c ∷ s

-- `s.split(sep, 1)[1]`, for a text that has the separator
unfoldable pub after_first : ℕ → String → String
after_first sep [] = []
after_first sep (c ∷ s) = let rest = after_first sep s in if nat_beq (code c) sep then s else rest
