-- ===== src/Path/Match/Captures.antt =====
-- What a match writes into the captures of a request.
use saphir.Base.{
  ◌≡◌, refl, sym, ap, ◌∙◌, Bool, true, false, List, [], ◌∷◌, reverse, Option, none, some,
  if◌then◌else◌, length, drop, arith, Option-cases, inl, inr, or_else,
}
use saphir.Base.Dict.{get, get-insert}
use saphir.Text.{Str, str_eq}
use saphir.Text.Laws.{str_key}
use saphir.Path.{SegmentMatcher, PathMatcher, simple, wild, CaptureMap, segment_name}
use saphir.Path.Match.{match_both, match_segments, wild_value, capture_as, capture}

-- The value that one name is given by one segment.
abbrev pub bound_by : Str → Option Str → Str → Option Str
bound_by key none value = none
bound_by key (some name) value = if str_eq name key then some value else none

module _ {R : Type 0} where
  -- The value of the last segment of that name.
  abbrev pub bound : Str → List (SegmentMatcher R) → List Str → Option Str
  bound key [] path = none
  bound key (seg ∷ segs) [] = none
  bound key (seg ∷ segs) (s ∷ path) =
      or_else (bound key segs path) (bound_by key (segment_name seg) s)

  -- The value that a matcher gives to a name on a path that it accepts.
  abbrev pub bound_in : Str → PathMatcher R → List Str → List Str → Option Str
  bound_in key (simple inner) path middle = bound key inner path
  bound_in key (wild start finish name) path middle =
      or_else (bound key (reverse finish) (reverse (drop (length start) path)))
        (or_else (bound key start path) (bound_by key name (wild_value middle)))

or_else_assoc : (a b c : Option Str) → or_else (or_else a b) c ≡ or_else a (or_else b c)
or_else_assoc none b c = refl
or_else_assoc (some _) b c = refl

regroup :
    (a b c d : Option Str)
    → or_else a (or_else b (or_else c d)) ≡ or_else (or_else a (or_else b c)) d
regroup none none c d = refl
regroup none (some _) c d = refl
regroup (some _) b c d = refl

get-capture_as :
    (key : Str) (name : Option Str) (value : Str) (captures : CaptureMap)
    → get key (capture_as name value captures)
      ≡ or_else (bound_by key name value) (get key captures)
unfolding capture_as
get-capture_as key none value captures = refl
get-capture_as key (some name) value captures =
    rw (get-insert name key value captures) (ground arith)

module _ {R : Type 0} where
  get-capture-nil :
      (key : Str) (segs : List (SegmentMatcher R)) (captures : CaptureMap)
      → get key (capture segs [] captures) ≡ get key captures
  unfolding capture
  get-capture-nil key [] captures = refl
  get-capture-nil key (seg ∷ segs) captures = get-capture-nil key segs captures

  get-capture :
      (key : Str) (segs : List (SegmentMatcher R)) (path : List Str) (captures : CaptureMap)
      → get key (capture segs path captures) ≡ or_else (bound key segs path) (get key captures)
  unfolding capture
  get-capture key [] path captures = refl
  get-capture key (seg ∷ segs) [] captures = get-capture-nil key segs captures
  get-capture key (seg ∷ segs) (s ∷ path) captures =
      get-capture key segs path (capture_as (segment_name seg) s captures)
      ∙ ap (or_else (bound key segs path)) (get-capture_as key (segment_name seg) s captures)
      ∙ sym (
          or_else_assoc (bound key segs path) (bound_by key (segment_name seg) s)
            (get key captures))

module _ {R : Type 0} (is_match : R → Str → Bool) where
  -- A path that is not accepted leaves the captures as they were.
  pub match_segments-captures_of_false :
      (m : PathMatcher R) (path : List Str) (captures : CaptureMap)
      → (match_segments is_match m path captures).0 ≡ false
      → (match_segments is_match m path captures).1 ≡ captures
  unfolding match_segments
  match_segments-captures_of_false (simple inner) path captures h = ground arith
  match_segments-captures_of_false (wild start finish name) path captures h = ground arith

  -- The segments that the wildcard of a matcher stands for.
  pub middle_of : PathMatcher R → List Str → List Str
  middle_of (simple inner) path = []
  middle_of (wild start finish _) path = elim (match_both is_match start finish path) [
    | none ↦ []
    | some middle ↦ middle
  ]

  middle_of_wild :
      (start finish : List (SegmentMatcher R)) (name : Option Str) (path : List Str)
      {middle : List Str}
      → match_both is_match start finish path ≡ some middle
      → middle_of (wild start finish name) path ≡ middle
  unfolding middle_of
  middle_of_wild start finish name path e = rw (e, middle_of)

  -- On a path that is accepted each name has the value of the last segment that binds it, and a
  -- name that nothing binds keeps its value.
  pub get-match_segments :
      (m : PathMatcher R) (path : List Str) (captures : CaptureMap) (key : Str)
      → (match_segments is_match m path captures).0 ≡ true
      → get key (match_segments is_match m path captures).1
        ≡ or_else (bound_in key m path (middle_of m path)) (get key captures)
  unfolding match_segments
  get-match_segments (simple inner) path captures key h =
      ground (arith, get-capture key inner path captures)
  get-match_segments (wild start finish name) path captures key h =
      elim (Option-cases (match_both is_match start finish path)) [
        | inl e ↦ absurd (cc (rw (e, match_segments) at h))
        | inr (middle, e) ↦
            rw (e, match_segments, middle_of_wild start finish name path e)
              (get-capture key (reverse finish) (reverse (drop (length start) path)) _
                ∙ ap (or_else (bound key (reverse finish) (reverse (drop (length start) path)))) (
                    get-capture key start path _
                    ∙ ap (or_else (bound key start path))
                        (get-capture_as key name (wild_value middle) captures))
                ∙ regroup (bound key (reverse finish) (reverse (drop (length start) path)))
                    (bound key start path) (bound_by key name (wild_value middle))
                    (get key captures))
      ]
