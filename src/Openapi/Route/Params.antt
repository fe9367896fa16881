-- ===== src/Openapi/Route/Params.antt =====
-- The variables of a route's path.
use saphir.Base.{
  ℕ, zero, suc, ◌≤◌, ◌≡◌, refl, true, false, List, [], ◌∷◌, ◌++◌, some, length, length-append,
  arith, All,
}
use saphir.Text.{Str}
use saphir.Openapi.Route.{is_opening, is_closing, find_closing, path_and_params}

-- A path as a character or a variable after another; a variable with the characters around its name
pub data Piece : Type 0 where
  char : ℕ → Piece
  variable : ℕ → Str → ℕ → Piece

-- The text of a path
abbrev pub render : List Piece → Str
render [] = []
render (char c ∷ pieces) = c ∷ render pieces
render (variable opening name closing ∷ pieces) = opening ∷ (name ++ (closing ∷ render pieces))

-- The same path with braces around its variables
abbrev pub in_braces : List Piece → List Piece
in_braces [] = []
in_braces (char c ∷ pieces) = char c ∷ in_braces pieces
in_braces (variable _ name _ ∷ pieces) = variable b'{' name b'}' ∷ in_braces pieces

abbrev pub variables : List Piece → List Str
variables [] = []
variables (char c ∷ pieces) = variables pieces
variables (variable _ name _ ∷ pieces) = name ∷ variables pieces

-- A character opens no variable; a variable is opened and closed, and its name does not close it.
abbrev pub IsPlain : Piece → Type 0
IsPlain (char c) = is_opening c ≡ false
IsPlain (variable opening name closing) =
    (is_opening opening ≡ true) × (is_closing closing ≡ true) × All (λ c. is_closing c ≡ false) name

find_closing-append :
    (name s : Str) (closing : ℕ)
    → is_closing closing ≡ true
    → All (λ c. is_closing c ≡ false) name
    → find_closing (name ++ (closing ∷ s)) ≡ some (name, s)
unfolding find_closing
find_closing-append [] s closing e h = rw e
find_closing-append (c ∷ name) s closing e (h, hs) = rw (h, find_closing-append name s closing e hs)

path_and_params-fuel :
    (fuel : ℕ) (pieces : List Piece)
    → All IsPlain pieces
    → length (render pieces) ≤ fuel
    → path_and_params fuel (render pieces) ≡ (render (in_braces pieces), variables pieces)
unfolding path_and_params
path_and_params-fuel zero [] h enough = refl
path_and_params-fuel (suc fuel) [] h enough = refl
path_and_params-fuel zero (char x ∷ pieces) h enough = absurd (omega arith)
path_and_params-fuel zero (variable o n c ∷ pieces) h enough = absurd (omega arith)
path_and_params-fuel (suc fuel) (char x ∷ pieces) (h, hs) enough =
    rw (h, path_and_params-fuel fuel pieces hs (omega arith))
path_and_params-fuel (suc fuel) (variable opening name closing ∷ pieces) ((o, c, h), hs) enough =
    rw (
      o,
      find_closing-append name (render pieces) closing c h,
      path_and_params-fuel fuel pieces hs
          (omega (arith, length-append name (closing ∷ render pieces), enough)),
    )

-- The variables of a path, each in `<` or `{` and `>` or `}`, are written in braces and listed in order, where the path
-- opens no variable that it does not close.
pub path_and_params_lem :
    (pieces : List Piece)
    → All IsPlain pieces
    → path_and_params (length (render pieces)) (render pieces)
      ≡ (render (in_braces pieces), variables pieces)
path_and_params_lem pieces h = path_and_params-fuel _ pieces h (omega arith)
