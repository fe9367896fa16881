-- ===== src/Request/Cookies.antt =====
-- saphir/src/request.rs: the cookies of a request, out of the header `Cookie`.
use saphir.Base.{ℕ, zero, suc, List, [], ◌∷◌, Option, none, some, length}
use saphir.Text.{Str, codes, split_once_str}
use saphir.Request.{Request}

-- `str::split` by a text, on a fuel that is the length of the text
unfoldable pub split_str : ℕ → Str → Str → List Str
split_str zero separator s = s ∷ []
split_str (suc fuel) separator s = elim (split_once_str separator s) [
  | none ↦ s ∷ []
  | some (before, after) ↦ before ∷ split_str fuel separator after
]

module _ {Jar Cookie : Type 0} (parse_cookie : Str → Option Cookie)
    (add_original : Cookie → Jar → Jar) where
  -- The cookies that parse go into the jar, in order; the others are skipped.
  unfoldable pub add_cookies : List Str → Jar → Jar
  add_cookies [] jar = jar
  add_cookies (s ∷ rest) jar = elim (parse_cookie s) [
    | none ↦ add_cookies rest jar
    | some c ↦ add_cookies rest (add_original c jar)
  ]

  -- `parse_cookies`; `header_text` is the text of the header `Cookie`, where there is one.
  unfoldable pub parse_cookies :
      {Head T Peer Op : Type 0}
      → (Head → Option Str)
      → Request Head T Jar Peer Op
      → Request Head T Jar Peer Op
  parse_cookies header_text r = elim (header_text r.head) [
    | none ↦ r
    | some text ↦ record r {
      cookies = add_cookies (split_str (length text) (codes "; ") text) r.cookies;
    }
  ]
