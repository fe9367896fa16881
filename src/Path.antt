-- ===== src/Path.antt =====
-- saphir/src/utils.rs: the matchers of one path segment and of a whole path. The crate `regex` is
-- a parameter: the type `R` of compiled expressions, how one is compiled and how one is run.

pub mod Match
pub mod Parsing
pub mod Order
use mathlib.Core.Option
use saphir.Base.{
  Bool, false, ◌&&◌, ◌||◌, List, [], ◌∷◌, Option, none, some, ◌==◌, if◌then◌else◌, is_empty,
  pop_back, Result, ok, err, ◌>>=◌, or_else,
}
use saphir.Text.{
  Str, codes, starts_with, contains, contains_char, split, split_once, split_once_str,
  trim_start_matches, trim_end_matches,
}
use saphir.Text.Laws.{str_key}

pub data SegmentMatcher (R : Type 0) : Type 0 where
  static : Str → SegmentMatcher R
  variable : Option Str → SegmentMatcher R
  custom : Option Str → R → SegmentMatcher R
  wildcard : Option Str → Option Str → SegmentMatcher R

pub data PathMatcher (R : Type 0) : Type 0 where
  simple : List (SegmentMatcher R) → PathMatcher R
  wild : List (SegmentMatcher R) → List (SegmentMatcher R) → Option Str → PathMatcher R

-- `HashMap<String, String>`
abbrev pub CaptureMap : Type 0
CaptureMap = List (Str × Str)

-- `.filter(|s| !s.is_empty())`
abbrev pub non_empty : Str → Option Str
non_empty s = if is_empty s then none else some s

-- `s.starts_with(SEGMENT_VARIABLE_OPENING_CHARS)`
unfoldable pub opens : Str → Bool
opens [] = false
opens (c ∷ _) = c == b'{' || c == b'<'

-- `s.ends_with(SEGMENT_VARIABLE_CLOSING_CHARS)`
unfoldable pub closes : Str → Bool
closes s = elim (pop_back s) [ none ↦ false | some (_, c) ↦ c == b'}' || c == b'>' ]

-- `segment[1..segment.len() - 1]`, where the text has two characters or more
unfoldable pub inside : Str → Str
inside [] = []
inside (_ ∷ s) = elim (pop_back s) [ none ↦ [] | some (before, _) ↦ before ]

-- `if s[0].starts_with('_') { None } else { Some(s[0].to_string()) }`
unfoldable pub capture_name : Str → Option Str
unfolding starts_with
capture_name s = if starts_with (b'_' ∷ []) s then none else some s

module _ {R : Type 0} (compile : Str → Result R Str) where
  -- The variable segment behind its brackets: a name, and perhaps `#r(expression)`.
  unfoldable pub new_variable : Str → Result (SegmentMatcher R) Str
  unfolding split_once_str capture_name trim_start_matches trim_end_matches
  new_variable s = elim (split_once_str (codes "#r") s) [
    | none ↦ ok (variable (capture_name s))
    | some (name, r) ↦ do
      let expression = trim_end_matches (codes ")") (trim_start_matches (codes "(") r)
      regex ← compile expression
      ok (custom (capture_name name) regex)
  ]

  -- `segment.splitn(2, '*')`, where there is a `*`
  unfoldable pub new_wildcard : Str → SegmentMatcher R
  unfolding split_once
  new_wildcard s = elim (split_once b'*' s) [
    | none ↦ wildcard (non_empty s) none
    | some (prefix, suffix) ↦ wildcard (non_empty prefix) (non_empty suffix)
  ]

  unfoldable pub new_segment : Str → Result (SegmentMatcher R) Str
  unfolding contains_char new_wildcard opens closes inside new_variable
  new_segment s =
      if contains_char b'/' s
      then err (codes "A path segment should not contain any /")
      else if contains_char b'*' s
      then ok (new_wildcard s)
      else if opens s && closes s
      then new_variable (inside s)
      else ok (static s)

  -- The closure of `filter_map`: the matchers so far, and the last error.
  unfoldable pub collect_segments : List Str → List (SegmentMatcher R) × Option Str
  unfolding new_segment
  collect_segments [] = ([], none)
  collect_segments (ps ∷ segments) =
      let (inner, last_err) = collect_segments segments in
      if is_empty ps then (inner, last_err) else elim (new_segment ps) [
        | ok matcher ↦ (matcher ∷ inner, last_err)
        | err e ↦ (inner, or_else last_err (some e))
      ]

  unfoldable pub parse_segments : List Str → Result (List (SegmentMatcher R)) Str
  unfolding collect_segments
  parse_segments segments =
      let (inner, last_err) = collect_segments segments in
      elim last_err [ some e ↦ err e | none ↦ ok inner ]

-- `seg.contains("**") || seg.contains("..")`
unfoldable pub is_wild : Str → Bool
unfolding contains
is_wild s = contains (codes "**") s || contains (codes "..") s

-- `segments.iter().position(..)` with `split_at`: the segments before the wildcard, the wildcard
-- and the segments behind it.
unfoldable pub split_wild : List Str → Option (List Str × Str × List Str)
unfolding is_wild
split_wild [] = none
split_wild (seg ∷ segments) =
    let later =
      Option.map (λ (parts : List Str × Str × List Str). (seg ∷ parts.0, parts.1, parts.2))
        (split_wild segments) in
    if is_wild seg then some ([], seg, segments) else later

-- `seg.trim_start_matches("**").trim_start_matches("..")`, if that is not empty
unfoldable pub wild_name : Str → Option Str
unfolding trim_start_matches
wild_name seg = non_empty (trim_start_matches (codes "..") (trim_start_matches (codes "**") seg))

module _ {R : Type 0} (compile : Str → Result R Str) where
  unfoldable pub new_path : Str → Result (PathMatcher R) Str
  unfolding is_wild split split_wild parse_segments wild_name
  new_path path_str =
      if is_wild path_str
      then elim (split_wild (split b'/' path_str)) [
        | none ↦ err (codes "Unable to locate wildcard")
        | some (s1, seg, s2) ↦ do
          start ← parse_segments compile s1
          finish ← parse_segments compile s2
          ok (wild start finish (wild_name seg))
      ]
      else (do inner ← parse_segments compile (split b'/' path_str); ok (simple inner))

-- The name under which a segment is captured.
unfoldable pub segment_name : {R : Type 0} → SegmentMatcher R → Option Str
segment_name (static _) = none
segment_name (variable n) = n
segment_name (custom n _) = n
segment_name (wildcard _ _) = none
