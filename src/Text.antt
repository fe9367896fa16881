-- ===== src/Text.antt =====
-- The operations of `str` that the server and the router call. A text is the list of its code
-- points; header values are ASCII, so there code points are bytes.
pub mod Laws
pub mod Split
pub mod Decimal
pub mod Trim
use Prim.Native.Char.{code}
use Prim.Native.String.{String}
use mathlib.Core.Option
use saphir.Base.{
  ℕ, zero, suc, Bool, true, false, ◌&&◌, ◌||◌, List, [], ◌∷◌, reverse, Option, none, some, leb,
  ◌==◌, if◌then◌else◌, length, is_some,
}

abbrev pub Str : Type 0
Str = List ℕ

abbrev pub codes : String → Str
codes String.[] = []
codes (String.◌∷◌ c s) = code c ∷ codes s

-- `a == b` on texts
unfoldable pub str_eq : Str → Str → Bool
str_eq [] [] = true
str_eq (x ∷ xs) (y ∷ ys) = x == y && str_eq xs ys
str_eq _ _ = false

-- `s.strip_prefix(p)`: what follows the prefix
unfoldable pub strip_prefix : Str → Str → Option Str
strip_prefix [] s = some s
strip_prefix (x ∷ p) [] = none
strip_prefix (x ∷ p) (y ∷ s) = let rest = strip_prefix p s in if x == y then rest else none

-- `s.starts_with(p)`
unfoldable pub starts_with : Str → Str → Bool
unfolding strip_prefix
starts_with p s = is_some (strip_prefix p s)

-- `s.ends_with(p)`
unfoldable pub ends_with : Str → Str → Bool
unfolding starts_with
ends_with p s = starts_with (reverse p) (reverse s)

-- `s.contains(p)` for a text `p`
unfoldable pub contains : Str → Str → Bool
unfolding starts_with
contains p [] = starts_with p []
contains p (x ∷ s) = starts_with p (x ∷ s) || contains p s

-- `s.contains(c)` for a character `c`
unfoldable pub contains_char : ℕ → Str → Bool
contains_char c [] = false
contains_char c (x ∷ s) = x == c || contains_char c s

-- The character stands in front of the first part.
unfoldable pub push_front : ℕ → List Str → List Str
push_front x [] = (x ∷ []) ∷ []
push_front x (w ∷ ws) = (x ∷ w) ∷ ws

-- `s.split(c)`: there is always at least one part
unfoldable pub split : ℕ → Str → List Str
unfolding push_front
split c [] = [] ∷ []
split c (x ∷ s) = let rest = split c s in if x == c then [] ∷ rest else push_front x rest

-- `s.splitn(2, c)`: `none` where there is no second part
unfoldable pub split_once : ℕ → Str → Option (Str × Str)
split_once c [] = none
split_once c (x ∷ s) =
    let rest = Option.map (λ (parts : Str × Str). (x ∷ parts.0, parts.1)) (split_once c s) in
    if x == c then some ([], s) else rest

-- `s.splitn(2, p)` for a text `p`
unfoldable pub split_once_str : Str → Str → Option (Str × Str)
unfolding strip_prefix
split_once_str p [] = Option.map (λ rest. ([], rest)) (strip_prefix p [])
split_once_str p (x ∷ s) =
    let later = Option.map (λ (parts : Str × Str). (x ∷ parts.0, parts.1)) (split_once_str p s) in
    elim (strip_prefix p (x ∷ s)) [ some rest ↦ some ([], rest) | none ↦ later ]

-- Each round takes one copy of the prefix off; `fuel` bounds the rounds.
unfoldable pub trim_prefix_rounds : ℕ → Str → Str → Str
unfolding strip_prefix
trim_prefix_rounds zero p s = s
trim_prefix_rounds (suc fuel) p s = elim (strip_prefix p s) [
  | none ↦ s
  | some rest ↦ trim_prefix_rounds fuel p rest
]

-- `s.trim_start_matches(p)` for a text `p` that is not empty
unfoldable pub trim_start_matches : Str → Str → Str
unfolding trim_prefix_rounds
trim_start_matches p s = trim_prefix_rounds (length s) p s

-- `s.trim_end_matches(p)`
unfoldable pub trim_end_matches : Str → Str → Str
unfolding trim_start_matches
trim_end_matches p s = reverse (trim_start_matches (reverse p) (reverse s))

-- `char::is_whitespace`: the code points of Unicode's property White_Space
unfoldable pub is_whitespace : ℕ → Bool
is_whitespace c =
    leb 9 c && leb c 13
    || c == 32
    || c == 0x85
    || c == 0xa0
    || c == 0x1680
    || leb 0x2000 c && leb c 0x200a
    || c == 0x2028
    || c == 0x2029
    || c == 0x202f
    || c == 0x205f
    || c == 0x3000

unfoldable pub trim_start : Str → Str
unfolding is_whitespace
trim_start [] = []
trim_start (x ∷ s) = let rest = trim_start s in if is_whitespace x then rest else x ∷ s

-- `s.trim()`
unfoldable pub trim : Str → Str
unfolding trim_start
trim s = reverse (trim_start (reverse (trim_start s)))
