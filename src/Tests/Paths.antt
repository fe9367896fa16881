-- ===== src/Tests/Paths.antt =====
-- Paths and routes of saphir/src/utils.rs.

use saphir.Base.{◌≡◌, ◌↔◌, refl, true, List, [], ◌∷◌, none, some, or_else, Result, ok}
use saphir.Base.Dict.{get}
use saphir.Text.{Str, codes, str_eq}
use saphir.Text.Laws.{str_key}
use saphir.Path.{SegmentMatcher, static, variable, PathMatcher, simple, wild}
use saphir.Path.Match.{match_segments}
use saphir.Path.Match.Exact.{Accepts, match_segments_iff}
use saphir.Path.Match.Captures.{bound_in, middle_of, get-match_segments}

abbrev users : PathMatcher Str
users = simple (static (codes "users") ∷ variable (some (codes "id")) ∷ [])

abbrev files : PathMatcher Str
files = wild (static (codes "files") ∷ []) (static (codes "raw") ∷ []) (some (codes "rest"))

abbrev files_path : List Str
files_path = codes "files" ∷ codes "a" ∷ codes "b" ∷ codes "raw" ∷ []

abbrev compile : Str → Result Str Str
compile r = ok r

match_segments_iff_example :
    ((match_segments str_eq files files_path []).0 ≡ true) ↔ Accepts str_eq files files_path
match_segments_iff_example = match_segments_iff str_eq files files_path []

get-match_segments_example :
    get (codes "rest") (match_segments str_eq files files_path []).1
    ≡ or_else
        (bound_in (codes "rest") files files_path (middle_of str_eq files files_path))
        (get (codes "rest") [])
unfolding match_segments
get-match_segments_example = get-match_segments str_eq files files_path [] (codes "rest") refl

abbrev one : List (SegmentMatcher Str)
one = static (codes "a") ∷ static (codes "b") ∷ []

abbrev two : List (SegmentMatcher Str)
two = static (codes "a") ∷ variable none ∷ []

abbrev three : List (SegmentMatcher Str)
three = variable none ∷ []
