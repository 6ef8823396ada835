-- ===== src/Prelude/Text.antt =====
-- Native texts: their equality under a plain name, and the tests of `str` that the code calls.

use Prim.Native.String
use Prim.Native.String.{String}
use Prim.Native.Nat.{ℕ}
use Prim.Native.Char.{Char, code}
use mathlib.Core.Option.{Option, none, some}
use mathlib.Core.Bool.{Bool, true, false, ◌||◌, ◌&&◌}
use text.Mathlib.Text.{◌==◌ as eq_texts}
use plano.Prelude.Tests.{leb, ◌==◌, if◌then◌else◌}

abbrev pub str_eq : String → String → Bool
str_eq s t = eq_texts s t

infixr 65 ◌<>◌
abbrev pub ◌<>◌ : String → String → String
s <> t = String.◌++◌ s t

-- `s.ends_with(t)`
unfoldable pub ends_with : String → String → Bool
ends_with String.[] t = eq_texts String.[] t
ends_with (String.◌∷◌ c s) t = eq_texts (String.◌∷◌ c s) t || ends_with s t

-- `s.is_empty()`
abbrev pub is_empty : String → Bool
is_empty String.[] = true
is_empty (String.◌∷◌ c s) = false

-- `s.split_once('/')`
unfoldable pub split_once_slash : String → Option (String × String)
split_once_slash String.[] = none
split_once_slash (String.◌∷◌ c s) =
    if code c == b'/' then some ("", s) else elim (split_once_slash s) [
      | none ↦ none
      | some (before, after) ↦ some (String.◌∷◌ c before, after)
    ]

-- `s.split_once(c)`, which also gives `s.splitn(2, c)` and `s.split(c).next()`
abbrev pub cut_behind : Char → Option (String × String) → Option (String × String)
cut_behind c none = none
cut_behind c (some (before, after)) = some (String.◌∷◌ c before, after)

unfoldable pub split_once : ℕ → String → Option (String × String)
split_once d String.[] = none
split_once d (String.◌∷◌ c s) = if code c == d then some ("", s) else cut_behind c (split_once d s)

abbrev pub piece_of : String → Option (String × String) → String
piece_of s none = s
piece_of s (some (before, after)) = before

unfoldable pub first_piece : ℕ → String → String
first_piece d s = piece_of s (split_once d s)

-- `s.trim_start_matches('/')`, `s.trim_end_matches('/')` and `s.trim_matches('/')`
unfoldable pub trim_start_slashes : String → String
trim_start_slashes String.[] = ""
trim_start_slashes (String.◌∷◌ c s) =
    if code c == b'/' then trim_start_slashes s else String.◌∷◌ c s

unfoldable pub trim_end_slashes : String → String
trim_end_slashes String.[] = ""
trim_end_slashes (String.◌∷◌ c s) =
    let rest = trim_end_slashes s in
    if (code c == b'/') && is_empty rest then "" else String.◌∷◌ c rest

unfoldable pub trim_slashes : String → String
unfolding trim_start_slashes trim_end_slashes
trim_slashes s = trim_end_slashes (trim_start_slashes s)

-- `s.strip_prefix(t)`
unfoldable pub strip_prefix : String → String → Option String
strip_prefix s String.[] = some s
strip_prefix String.[] (String.◌∷◌ d t) = none
strip_prefix (String.◌∷◌ c s) (String.◌∷◌ d t) =
    let rest = strip_prefix s t in if code c == code d then rest else none

-- `s.starts_with(t)` and `s.contains(t)`
abbrev pub starts_with : String → String → Bool
starts_with s t = elim (strip_prefix s t) [ none ↦ false | some rest ↦ true ]

unfoldable pub contains : String → String → Bool
contains String.[] t = starts_with String.[] t
contains (String.◌∷◌ c s) t = starts_with (String.◌∷◌ c s) t || contains s t

-- `char::is_whitespace`
abbrev pub is_whitespace : ℕ → Bool
is_whitespace c =
    (leb 9 c && leb c 13)
    || (c == 32)
    || (c == 0x85)
    || (c == 0xa0)
    || (c == 0x1680)
    || (leb 0x2000 c && leb c 0x200a)
    || (c == 0x2028)
    || (c == 0x2029)
    || (c == 0x202f)
    || (c == 0x205f)
    || (c == 0x3000)

-- `s.trim()`
unfoldable pub trim_start : String → String
trim_start String.[] = ""
trim_start (String.◌∷◌ c s) = if is_whitespace (code c) then trim_start s else String.◌∷◌ c s

unfoldable pub trim_end : String → String
trim_end String.[] = ""
trim_end (String.◌∷◌ c s) =
    let rest = trim_end s in
    if is_whitespace (code c) && is_empty rest then "" else String.◌∷◌ c rest

unfoldable pub trim : String → String
unfolding trim_start trim_end
trim s = trim_end (trim_start s)
