-- ===== src/Common/Text.antt =====
-- `str.strip`, over the code points of a text.
use Prim.Native.Char.{Char, code}
use Prim.Native.String.{String}
use mathlib.Core.Bool.{Bool, true, false, ◌||◌, ◌&&◌}
use mathlib.Core.Option.{Option, none, some}
use mathlib.Core.List.{List, [], ◌∷◌, reverse}
use io_tables.Common.Tests.{◌==◌, leb, if◌then◌else◌}

-- The characters that `str.strip` removes: `str.isspace`.
unfoldable pub is_space : Char → Bool
is_space ch =
    let c = code ch in
    (leb 9 c && leb c 13)
    || (leb 28 c && leb c 32)
    || c == 133
    || c == 160
    || c == 5760
    || (leb 8192 c && leb c 8202)
    || c == 8232
    || c == 8233
    || c == 8239
    || c == 8287
    || c == 12288

unfoldable pub to_list : String → List Char
to_list String.[] = []
to_list (String.◌∷◌ c s) = c ∷ to_list s

unfoldable pub of_list : List Char → String
of_list [] = String.[]
of_list (c ∷ s) = String.◌∷◌ c (of_list s)

unfoldable pub drop_spaces : List Char → List Char
drop_spaces [] = []
drop_spaces (c ∷ s) = let rest = drop_spaces s in if is_space c then rest else c ∷ s

unfoldable pub strip : String → String
unfolding is_space to_list of_list drop_spaces
strip s = of_list (reverse (drop_spaces (reverse (drop_spaces (to_list s)))))

-- `not s`
abbrev pub is_empty : String → Bool
is_empty String.[] = true
is_empty (String.◌∷◌ c s) = false

-- A text that is absent or empty is false in Python.
abbrev pub given : Option String → Option String
given none = none
given (some text) = if is_empty text then none else some text
