-- ===== src/Path/Order.antt =====
-- saphir/src/utils.rs: the order of the matchers, by which the router sorts its endpoints.
pub mod Laws
use Prim.Native.Nat.{compare, Ordering}
use saphir.Base.{
  ℕ, Bool, true, false, List, [], ◌∷◌, Option, none, some, if◌then◌else◌, length, is_empty,
}
use saphir.Path.{SegmentMatcher, static, variable, custom, wildcard, PathMatcher, simple, wild}

module _ {R : Type 0} where
  unfoldable pub ord_index : SegmentMatcher R → ℕ
  ord_index (static _) = 1
  ord_index (variable _) = 3
  ord_index (custom _ _) = 2
  ord_index (wildcard _ _) = 3

  -- `UriPathSegmentMatcher::cmp`
  unfoldable pub compare_segment : SegmentMatcher R → SegmentMatcher R → Ordering
  unfolding ord_index
  compare_segment a b = compare (ord_index a) (ord_index b)

  unfoldable pub is_static : SegmentMatcher R → Bool
  is_static (static _) = true
  is_static (variable _) = false
  is_static (custom _ _) = false
  is_static (wildcard _ _) = false

  -- `if let Static { .. } = start { return .. }` over the segments that the other side lacks
  unfoldable pub any_static : List (SegmentMatcher R) → Bool
  unfolding is_static
  any_static [] = false
  any_static (seg ∷ segs) = if is_static seg then true else any_static segs

  -- The first loop and the two behind it: `none` where they do not return.
  unfoldable pub compare_start : List (SegmentMatcher R) → List (SegmentMatcher R) → Option Ordering
  unfolding compare_segment any_static
  compare_start [] [] = none
  compare_start (x ∷ xs) [] = if any_static (x ∷ xs) then some Ordering.lt else none
  compare_start [] (y ∷ ys) = if any_static (y ∷ ys) then some Ordering.gt else none
  compare_start (x ∷ xs) (y ∷ ys) =
      let rest = compare_start xs ys in
      elim (compare_segment x y) [
        | Ordering.eq ↦ rest
        | Ordering.lt ↦ some Ordering.lt
        | Ordering.gt ↦ some Ordering.gt
      ]

  -- The loop over the common length of the segments behind two wildcards, and then their lengths.
  unfoldable pub compare_end : List (SegmentMatcher R) → List (SegmentMatcher R) → Ordering
  unfolding compare_segment
  compare_end [] ys = compare (length ys) 0
  compare_end (x ∷ xs) [] = compare 0 (length (x ∷ xs))
  compare_end (x ∷ xs) (y ∷ ys) =
      let rest = compare_end xs ys in
      elim (compare_segment x y) [
        | Ordering.eq ↦ rest
        | Ordering.lt ↦ Ordering.lt
        | Ordering.gt ↦ Ordering.gt
      ]

  -- The last `match`, on what stands behind the wildcards.
  unfoldable pub compare_tail : PathMatcher R → PathMatcher R → Ordering
  unfolding compare_end
  compare_tail (wild _ e _) (wild _ f _) = compare_end e f
  compare_tail (wild _ e _) (simple _) = if is_empty e then Ordering.gt else Ordering.lt
  compare_tail (simple _) (wild _ f _) = if is_empty f then Ordering.lt else Ordering.gt
  compare_tail (simple a) (simple b) = compare (length b) (length a)

  abbrev pub start_of : PathMatcher R → List (SegmentMatcher R)
  start_of (simple inner) = inner
  start_of (wild start _ _) = start

  -- `UriPathMatcher::cmp`
  unfoldable pub compare_path : PathMatcher R → PathMatcher R → Ordering
  unfolding compare_start compare_tail
  compare_path a b = elim (compare_start (start_of a) (start_of b)) [
    | some order ↦ order
    | none ↦ compare_tail a b
  ]
