-- ===== src/Path/Order/Laws.antt =====
-- The order of the matchers is consistent on two matchers, and on three it need not be.
use Prim.Native.Nat.{compare, Ordering}
use saphir.Base.{ℕ, ◌≡◌, refl, List, [], ◌∷◌, Option, none, some, ◌≢◌, ◌++◌, length, arith}
use saphir.Text.{Str}
use saphir.Path.{SegmentMatcher, static, variable, custom, PathMatcher, simple, wild}
use saphir.Path.Order.{
  ord_index, compare_segment, start_of, compare_start, compare_end, compare_tail, compare_path,
}

-- `Ordering::reverse`
abbrev pub opposite : Ordering → Ordering
opposite Ordering.lt = Ordering.gt
opposite Ordering.eq = Ordering.eq
opposite Ordering.gt = Ordering.lt

abbrev opposite_option : Option Ordering → Option Ordering
opposite_option none = none
opposite_option (some o) = some (opposite o)

abbrev first_of_two : Option Ordering → Ordering → Ordering
first_of_two none o = o
first_of_two (some o) _ = o

compare-opposite : (a b : ℕ) → compare b a ≡ opposite (compare a b)
compare-opposite a b = ground arith

rest_is_variable : (R : Type 0) (m : Option Str) → compare_start {R = R} (variable m ∷ []) [] ≡ none
unfolding compare_start
rest_is_variable R m = refl

module _ {R : Type 0} where
  compare_segment-opposite :
      (a b : SegmentMatcher R) → compare_segment b a ≡ opposite (compare_segment a b)
  unfolding compare_segment
  compare_segment-opposite a b = compare-opposite (ord_index a) (ord_index b)

  compare_start-opposite :
      (a b : List (SegmentMatcher R)) → compare_start b a ≡ opposite_option (compare_start a b)
  unfolding compare_start
  compare_start-opposite [] [] = refl
  compare_start-opposite (x ∷ xs) [] = ground arith
  compare_start-opposite [] (y ∷ ys) = ground arith
  compare_start-opposite (x ∷ xs) (y ∷ ys) =
      ground (arith, compare_start-opposite xs ys, compare_segment-opposite x y)

  compare_end-opposite :
      (a b : List (SegmentMatcher R)) → compare_end b a ≡ opposite (compare_end a b)
  unfolding compare_end
  compare_end-opposite [] [] = refl
  compare_end-opposite (x ∷ xs) [] = compare-opposite 0 (length (x ∷ xs))
  compare_end-opposite [] (y ∷ ys) = compare-opposite (length (y ∷ ys)) 0
  compare_end-opposite (x ∷ xs) (y ∷ ys) =
      ground (arith, compare_end-opposite xs ys, compare_segment-opposite x y)

  compare_tail-opposite : (a b : PathMatcher R) → compare_tail b a ≡ opposite (compare_tail a b)
  unfolding compare_tail
  compare_tail-opposite (simple a) (simple b) = compare-opposite (length b) (length a)
  compare_tail-opposite (wild _ e _) (wild _ f _) = compare_end-opposite e f
  compare_tail-opposite (simple a) (wild _ f _) = ground arith
  compare_tail-opposite (wild _ e _) (simple b) = ground arith

  -- Comparing the other way round gives the opposite answer.
  pub compare_path-opposite : (a b : PathMatcher R) → compare_path b a ≡ opposite (compare_path a b)
  unfolding compare_path
  compare_path-opposite a b =
      ground (arith, compare_start-opposite (start_of a) (start_of b), compare_tail-opposite a b)

  -- The order of two matchers with no wildcard: from left to right, the longer one first.
  abbrev pub lexicographic : List (SegmentMatcher R) → List (SegmentMatcher R) → Ordering
  lexicographic [] [] = Ordering.eq
  lexicographic (x ∷ xs) [] = Ordering.lt
  lexicographic [] (y ∷ ys) = Ordering.gt
  lexicographic (x ∷ xs) (y ∷ ys) =
      let rest = lexicographic xs ys in
      elim (compare_segment x y) [
        | Ordering.eq ↦ rest
        | Ordering.lt ↦ Ordering.lt
        | Ordering.gt ↦ Ordering.gt
      ]

  compare_start-lexicographic :
      (a b : List (SegmentMatcher R))
      → first_of_two (compare_start a b) (compare (length b) (length a)) ≡ lexicographic a b
  unfolding compare_start
  compare_start-lexicographic [] [] = refl
  compare_start-lexicographic (x ∷ xs) [] = ground arith
  compare_start-lexicographic [] (y ∷ ys) = ground arith
  compare_start-lexicographic (x ∷ xs) (y ∷ ys) = ground (arith, compare_start-lexicographic xs ys)

  -- On matchers with no wildcard the order is the lexicographic one.
  pub compare_path-lexicographic :
      (a b : List (SegmentMatcher R)) → compare_path (simple a) (simple b) ≡ lexicographic a b
  unfolding compare_path compare_tail
  compare_path-lexicographic a b = ground (arith, compare_start-lexicographic a b)

  lexicographic_trans :
      (a b c : List (SegmentMatcher R))
      → lexicographic a b ≢ Ordering.gt
      → lexicographic b c ≢ Ordering.gt
      → lexicographic a c ≢ Ordering.gt
  unfolding compare_segment
  lexicographic_trans [] [] c h k = k
  lexicographic_trans [] (y ∷ ys) c h k = absurd (h refl)
  lexicographic_trans (x ∷ xs) [] [] h k = h
  lexicographic_trans (x ∷ xs) [] (z ∷ zs) h k = absurd (k refl)
  lexicographic_trans (x ∷ xs) (y ∷ ys) [] h k = λ e. cc
  lexicographic_trans (x ∷ xs) (y ∷ ys) (z ∷ zs) h k = ground (arith, lexicographic_trans xs ys zs)

  -- On matchers with no wildcard the order is transitive.
  pub compare_path_trans :
      (a b c : List (SegmentMatcher R))
      → compare_path (simple a) (simple b) ≢ Ordering.gt
      → compare_path (simple b) (simple c) ≢ Ordering.gt
      → compare_path (simple a) (simple c) ≢ Ordering.gt
  compare_path_trans a b c =
      rw (compare_path-lexicographic, compare_path-lexicographic, compare_path-lexicographic)
        (lexicographic_trans a b c)

  compare_segment_refl : (x : SegmentMatcher R) → compare_segment x x ≡ Ordering.eq
  unfolding compare_segment
  compare_segment_refl x = ground arith

  compare_start-append :
      (p a b : List (SegmentMatcher R)) → compare_start (p ++ a) (p ++ b) ≡ compare_start a b
  unfolding compare_start
  compare_start-append [] a b = refl
  compare_start-append (x ∷ p) a b =
      ground (arith, compare_segment_refl x, compare_start-append p a b)

  compare_start-append_left :
      (p a : List (SegmentMatcher R)) → compare_start (p ++ a) p ≡ compare_start a []
  unfolding compare_start
  compare_start-append_left [] a = refl
  compare_start-append_left (x ∷ p) a =
      ground (arith, compare_segment_refl x, compare_start-append_left p a)

  compare_start-append_right :
      (p a : List (SegmentMatcher R)) → compare_start p (p ++ a) ≡ compare_start [] a
  unfolding compare_start
  compare_start-append_right [] a = refl
  compare_start-append_right (x ∷ p) a =
      ground (arith, compare_segment_refl x, compare_start-append_right p a)

  longer_end : (a b : SegmentMatcher R) → compare_end (a ∷ b ∷ []) (a ∷ []) ≡ Ordering.lt
  unfolding compare_end
  longer_end a b = ground (arith, compare_segment_refl a)

  end_is_longer : (a : SegmentMatcher R) → compare_end (a ∷ []) [] ≡ Ordering.lt
  unfolding compare_end
  end_is_longer a = refl

  first_differs :
      (n m : Option Str) (r : R)
      → compare_start (custom n r ∷ []) (variable m ∷ []) ≡ some Ordering.lt
  unfolding compare_start
  first_differs n m r = refl

  rest_is_custom : (n : Option Str) (r : R) → compare_start [] (custom n r ∷ []) ≡ none
  unfolding compare_start
  rest_is_custom n r = refl

  -- Three matchers with wildcards that the order puts in a circle.
  pub compare_path_circle :
      (p : List (SegmentMatcher R)) (first second : Str) (n m c d e : Option Str) (r : R)
      → let u = wild (p ++ custom n r ∷ []) [] c in
        let v = wild (p ++ variable m ∷ []) (static first ∷ static second ∷ []) d in
        let w = wild p (static first ∷ []) e in
        (compare_path u v ≡ Ordering.lt)
        × (compare_path v w ≡ Ordering.lt)
        × (compare_path w u ≡ Ordering.lt)
  unfolding compare_path compare_tail
  compare_path_circle p first second n m c d e r = (
    ground (arith, compare_start-append p (custom n r ∷ []) (variable m ∷ []), first_differs n m r),
    ground (
      arith,
      compare_start-append_left p (variable m ∷ []),
      rest_is_variable R m,
      longer_end (static first) (static second),
    ),
    ground (
      arith,
      compare_start-append_right p (custom n r ∷ []),
      rest_is_custom n r,
      end_is_longer (static first),
    ),
  )
