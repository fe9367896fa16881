-- ===== src/Path/Match.antt =====
-- saphir/src/utils.rs: `UriPathSegmentMatcher::matches`, `match_start`, `match_end`,
-- `match_non_exhaustive` and `match_all_and_capture`.
pub mod Exact
pub mod Captures
use mathlib.Core.Option
use saphir.Base.{
  Bool, true, false, ◌&&◌, not, List, [], ◌∷◌, ◌++◌, reverse, Option, none, some, ◌==◌,
  if◌then◌else◌, length, drop, is_empty, is_some, pop_back,
}
use saphir.Base.Dict.{insert}
use saphir.Text.{Str, codes, str_eq, starts_with, ends_with, split, trim_start_matches}
use saphir.Text.Laws.{str_key}
use saphir.Path.{
  SegmentMatcher, static, variable, custom, wildcard, PathMatcher, simple, wild, CaptureMap,
  segment_name,
}

-- `part.filter(|part| !test(part)).is_none()`
abbrev pub fits : (Str → Bool) → Option Str → Bool
fits test none = true
fits test (some part) = test part

-- `if path_segments.back().map(|s| s.len()).unwrap_or(0) < 1 { path_segments.pop_back(); }`
unfoldable pub drop_last_empty : List Str → List Str
drop_last_empty segments = elim (pop_back segments) [
  | none ↦ []
  | some (before, last) ↦ if is_empty last then before else segments
]

-- The segments of a request's path: nothing before the first slash, no empty segment at the end.
unfoldable pub request_segments : Str → List Str
unfolding split drop_last_empty
request_segments path = drop_last_empty (drop 1 (split b'/' path))

-- `segments.iter().fold(String::new(), |o, s| write!(o, "/{s}"))`
unfoldable pub wild_value : List Str → Str
wild_value [] = []
wild_value (s ∷ segments) = b'/' ∷ (s ++ wild_value segments)

unfoldable pub capture_as : Option Str → Str → CaptureMap → CaptureMap
unfolding insert str_eq
capture_as none value captures = captures
capture_as (some name) value captures = insert name value captures

module _ {R : Type 0} where
  -- The loop that captures: each segment takes one part of the path.
  unfoldable pub capture : List (SegmentMatcher R) → List Str → CaptureMap → CaptureMap
  unfolding capture_as segment_name
  capture [] path captures = captures
  capture (seg ∷ segs) [] captures = capture segs [] captures
  capture (seg ∷ segs) (current ∷ path) captures =
      capture segs path (capture_as (segment_name seg) current captures)

module _ {R : Type 0} (is_match : R → Str → Bool) where
  unfoldable pub matches : SegmentMatcher R → Str → Bool
  unfolding str_eq starts_with ends_with
  matches (static s) other = str_eq s other
  matches (variable _) other = true
  matches (custom _ regex) other = is_match regex other
  matches (wildcard prefix suffix) other =
      fits (λ part. starts_with part other) prefix && fits (λ part. ends_with part other) suffix

  -- `none` where the source returns `false`; otherwise the segments that are left.
  unfoldable pub match_start : List (SegmentMatcher R) → List Str → Option (List Str)
  unfolding matches
  match_start [] path = some path
  match_start (seg ∷ segs) [] = none
  match_start (seg ∷ segs) (s ∷ path) =
      let rest = match_start segs path in if matches seg s then rest else none

  -- The same loop by `next_back` and `pop_back`.
  unfoldable pub match_end : List (SegmentMatcher R) → List Str → Option (List Str)
  unfolding match_start
  match_end segs path = Option.map reverse (match_start (reverse segs) (reverse path))

  unfoldable pub match_both :
      List (SegmentMatcher R) → List (SegmentMatcher R) → List Str → Option (List Str)
  unfolding match_start match_end
  match_both start finish path = elim (match_start start path) [
    | none ↦ none
    | some rest ↦ match_end finish rest
  ]

  unfoldable pub match_non_exhaustive : PathMatcher R → Str → Bool
  unfolding match_both split trim_start_matches
  match_non_exhaustive (simple inner) path =
      is_some (match_start inner (split b'/' (trim_start_matches (codes "/") path)))
  match_non_exhaustive (wild start finish _) path =
      is_some (match_both start finish (split b'/' (trim_start_matches (codes "/") path)))

  -- The loop that validates, for a matcher with no wildcard.
  unfoldable pub validate : List (SegmentMatcher R) → List Str → Bool
  unfolding matches
  validate [] path = true
  validate (seg ∷ segs) [] = false
  validate (seg ∷ segs) (current ∷ path) = matches seg current && validate segs path

  unfoldable pub match_segments : PathMatcher R → List Str → CaptureMap → Bool × CaptureMap
  unfolding validate capture match_both wild_value
  match_segments (simple inner) path captures =
      if not (length inner == length path)
      then (false, captures)
      else if validate inner path
      then (true, capture inner path captures)
      else (false, captures)
  match_segments (wild start finish name) path captures = elim (match_both start finish path) [
    | none ↦ (false, captures)
    | some segments ↦
        let captures = capture_as name (wild_value segments) captures in
        let captures = capture start path captures in
        (true, capture (reverse finish) (reverse (drop (length start) path)) captures)
  ]

  unfoldable pub match_all_and_capture : PathMatcher R → Str → CaptureMap → Bool × CaptureMap
  unfolding request_segments match_segments
  match_all_and_capture m path captures = match_segments m (request_segments path) captures
