-- ===== src/Path/Match/Exact.antt =====
-- A path matches exactly when its segments can be laid out along the matcher.
use mathlib.Core.List.{reverse-append, reverse-reverse, reverse-cons, append_assoc}
use saphir.Base.{
  ◌≡◌, refl, sym, ap, ◌∙◌, ◌↔◌, Bool, true, List, [], ◌∷◌, ◌++◌, reverse, Option, some, ◌==◌,
  length, is_some, Pointwise, arith, Bool-cases, Option-cases, inl, inr,
}
use saphir.Text.{Str}
use saphir.Path.{SegmentMatcher, PathMatcher, simple, wild, CaptureMap}
use saphir.Path.Match.{matches, match_start, match_end, match_both, validate, match_segments}

module _ {ℓ κ} {A : Type ℓ} {B : Type κ} (P : A → B → Type 0) where
  Pointwise-append :
      (xs ys : List A) (us vs : List B)
      → Pointwise P xs us
      → Pointwise P ys vs
      → Pointwise P (xs ++ ys) (us ++ vs)
  Pointwise-append [] ys [] vs p q = q
  Pointwise-append (x ∷ xs) ys (a ∷ us) vs p q = (p.0, Pointwise-append xs ys us vs p.1 q)
  Pointwise-append [] ys (a ∷ us) vs p q = absurd p
  Pointwise-append (x ∷ xs) ys [] vs p q = absurd p

  Pointwise-reverse :
      (xs : List A) (us : List B) → Pointwise P xs us → Pointwise P (reverse xs) (reverse us)
  Pointwise-reverse [] [] p = tt
  Pointwise-reverse (x ∷ xs) (a ∷ us) p =
      rw (reverse-cons, reverse-cons)
        (Pointwise-append (reverse xs) (x ∷ []) (reverse us) (a ∷ []) (Pointwise-reverse xs us p.1)
          (p.0, tt))
  Pointwise-reverse [] (a ∷ us) p = absurd p
  Pointwise-reverse (x ∷ xs) [] p = absurd p

module _ {R : Type 0} (is_match : R → Str → Bool) where
  -- The segments of the path match the segments of the matcher one by one.
  abbrev pub Along : List (SegmentMatcher R) → List Str → Type 0
  Along = Pointwise (λ seg s. matches is_match seg s ≡ true)

  -- What a matcher accepts, stated without the code's loops.
  abbrev pub Accepts : PathMatcher R → List Str → Type 0
  Accepts (simple inner) path = Along inner path
  Accepts (wild start finish _) path =
      (before : List Str) × (middle : List Str) × (behind : List Str) × (path
        ≡ before ++ middle ++ behind)
      × Along start before
      × Along finish behind

  pub match_start-append :
      (segs : List (SegmentMatcher R)) (before rest : List Str)
      → Along segs before
      → match_start is_match segs (before ++ rest) ≡ some rest
  unfolding match_start
  match_start-append [] [] rest h = refl
  match_start-append (seg ∷ segs) (s ∷ before) rest h =
      rw h.0 (match_start-append segs before rest h.1)
  match_start-append [] (_ ∷ _) rest h = absurd h
  match_start-append (_ ∷ _) [] rest h = absurd h

  pub match_start-eq-some :
      (segs : List (SegmentMatcher R)) (path : List Str) {rest : List Str}
      → match_start is_match segs path ≡ some rest
      → (before : List Str) × (path ≡ before ++ rest) × Along segs before
  unfolding match_start
  match_start-eq-some [] path h = ([], cc, tt)
  match_start-eq-some (seg ∷ segs) [] h = absurd (cc h)
  match_start-eq-some (seg ∷ segs) (s ∷ path) {rest} h =
      elim (Bool-cases (matches is_match seg s)) [
        | inl e ↦
            let (before, p, a) = match_start-eq-some segs path {rest = rest} (rw e at h) in
            (s ∷ before, ap (λ t. s ∷ t) p, (e, a))
        | inr e ↦ absurd (cc (rw e at h))
      ]

  pub match_end-append :
      (segs : List (SegmentMatcher R)) (rest behind : List Str)
      → Along segs behind
      → match_end is_match segs (rest ++ behind) ≡ some rest
  unfolding match_end
  match_end-append segs rest behind h =
      rw
        (
          reverse-append,
          match_start-append (reverse segs) (reverse behind) (reverse rest)
              (Pointwise-reverse _ segs behind h),
        )
        (ap some (reverse-reverse rest))

  pub match_end-eq-some :
      (segs : List (SegmentMatcher R)) (path : List Str) {rest : List Str}
      → match_end is_match segs path ≡ some rest
      → (behind : List Str) × (path ≡ rest ++ behind) × Along segs behind
  unfolding match_end
  match_end-eq-some segs path {rest} h =
      elim (Option-cases (match_start is_match (reverse segs) (reverse path))) [
        | inl e ↦ absurd (cc (rw e at h))
        | inr (left, e) ↦
            let (before, p, a) = match_start-eq-some (reverse segs) (reverse path) e in
            let same : reverse left ≡ rest = cc (rw e at h) in
            (
              reverse before,
              sym (reverse-reverse path)
                  ∙ ap reverse p
                  ∙ reverse-append before left
                  ∙ ap (λ t. t ++ reverse before) same,
              rw (reverse-reverse segs) at (Pointwise-reverse _ (reverse segs) before a),
            )
      ]

  validate_iff :
      (segs : List (SegmentMatcher R)) (path : List Str)
      → ((length segs == length path) ≡ true) × (validate is_match segs path ≡ true)
        ↔ Along segs path
  unfolding validate
  validate_iff [] [] = (λ _. tt, λ _. (refl, refl))
  validate_iff [] (_ ∷ _) = ground arith
  validate_iff (_ ∷ _) [] = ground arith
  validate_iff (seg ∷ segs) (s ∷ path) = ground (arith, validate_iff segs path)

  -- The wildcard takes the middle, and the two lists of segments what stands around it.
  pub match_both-eq-some :
      (start finish : List (SegmentMatcher R)) (path : List Str) {middle : List Str}
      → match_both is_match start finish path ≡ some middle
      → (before : List Str) × (behind : List Str) × (path ≡ before ++ middle ++ behind)
        × Along start before
        × Along finish behind
  unfolding match_both
  match_both-eq-some start finish path {middle} h =
      elim (Option-cases (match_start is_match start path)) [
        | inl e ↦ absurd (cc (rw (e, match_both) at h))
        | inr (left, e) ↦
            let (before, p, a) = match_start-eq-some start path e in
            let (behind, q, b) = match_end-eq-some finish left (rw (e, match_both) at h) in
            (
              before,
              behind,
              p ∙ ap (λ t. before ++ t) q ∙ sym (append_assoc before middle behind),
              a,
              b,
            )
      ]

  pub match_both-append :
      (start finish : List (SegmentMatcher R)) (before middle behind : List Str)
      → Along start before
      → Along finish behind
      → match_both is_match start finish (before ++ middle ++ behind) ≡ some middle
  unfolding match_both
  match_both-append start finish before middle behind a b =
      rw (append_assoc, match_both, match_start-append start before (middle ++ behind) a)
        (match_end-append finish middle behind b)

  match_both_iff :
      (start finish : List (SegmentMatcher R)) (name : Option Str) (path : List Str)
      → (is_some (match_both is_match start finish path) ≡ true)
        ↔ Accepts (wild start finish name) path
  match_both_iff start finish name path = (
    λ h. elim (Option-cases (match_both is_match start finish path)) [
      | inl e ↦ absurd (cc (rw (e, is_some) at h))
      | inr (middle, e) ↦
          let (before, behind, p, a, b) = match_both-eq-some start finish path e in
          (before, middle, behind, p, a, b)
    ],
    λ (before, middle, behind, p, a, b).
        rw (p, match_both-append start finish before middle behind a b),
  )

  -- A path is accepted exactly when its segments can be laid out along the matcher.
  pub match_segments_iff :
      (m : PathMatcher R) (path : List Str) (captures : CaptureMap)
      → ((match_segments is_match m path captures).0 ≡ true) ↔ Accepts m path
  unfolding match_segments
  match_segments_iff (simple inner) path captures = ground (arith, validate_iff inner path)
  match_segments_iff (wild start finish name) path captures =
      ground (arith, match_both_iff start finish name path)
