-- ===== src/Path/Parsing.antt =====
-- `UriPathMatcher::new`: the wildcard is found whenever there is one, and a route without special
-- characters is matched literally.
use saphir.Base.{
  ℕ, ◌≡◌, ◌≢◌, refl, ap, true, false, ◌||◌, List, [], ◌∷◌, ◌++◌, map, none, some, ◌==◌, arith,
  Bool-cases, Option-cases, inl, inr, any, All, is_empty, Result, ok, ◌>>=◌,
}
use saphir.Text.{Str, codes, contains, contains_char, starts_with, split, push_front}
use saphir.Text.Laws.{starts_with_lem, starts_with-append}
use saphir.Text.Split.{join, Free, split-join}
use saphir.Path.{
  SegmentMatcher, static, simple, is_wild, split_wild, new_path, parse_segments, collect_segments,
  new_segment, opens,
}

-- A part that starts with `p` stands in front of the split of `p ++ r`.
split-prefix :
    (c : ℕ) (p r : Str)
    → Free c p
    → (w : Str) × (ws : List Str) × (split c (p ++ r) ≡ (p ++ w) ∷ ws)
unfolding split contains_char push_front
split-prefix c [] [] h = ([], [], refl)
split-prefix c [] (x ∷ r) h = elim (Bool-cases (x == c)) [
  | inl e ↦ ([], split c r, rw e)
  | inr e ↦ let (w, ws, q) = split-prefix c [] r refl in (x ∷ w, ws, rw (e, q))
]
split-prefix c (x ∷ p) r h =
    let (w, ws, q) = split-prefix c p r (ground arith) in
    let e : (x == c) ≡ false = ground arith in (w, ws, rw (e, q))

contains-append : (p w : Str) → contains p (p ++ w) ≡ true
unfolding contains
contains-append [] [] = unfold starts_with in refl
contains-append [] (x ∷ w) = unfold starts_with in refl
contains-append (x ∷ p) w = ground (arith, starts_with-append (x ∷ p) w)

contains-split-nil : (c : ℕ) (p : Str) → contains p [] ≡ true → any (contains p) (split c []) ≡ true
unfolding split
contains-split-nil c p h = ground arith

any-push_front :
    (p : Str) (x : ℕ) (ws : List Str)
    → any (contains p) ws ≡ true
    → any (contains p) (push_front x ws) ≡ true
unfolding push_front contains
any-push_front p x [] h = cc
any-push_front p x (w ∷ ws) h = ground arith

contains-split_later :
    (c : ℕ) (p : Str) (x : ℕ) (s : Str)
    → any (contains p) (split c s) ≡ true
    → any (contains p) (split c (x ∷ s)) ≡ true
unfolding split
contains-split_later c p x s h = ground (arith, any-push_front p x (split c s))

-- A text free of the separator stands inside one of the parts.
pub contains-split :
    (c : ℕ) (p s : Str) → Free c p → contains p s ≡ true → any (contains p) (split c s) ≡ true
contains-split c p [] f h = contains-split-nil c p h
contains-split c p (x ∷ s) f h = elim (Bool-cases (starts_with p (x ∷ s))) [
  | inl e ↦
      let (r, q) = starts_with_lem p (x ∷ s) e in
      let (w, ws, k) = split-prefix c p r f in rw (q, k) (ground (arith, contains-append p w))
  | inr e ↦ contains-split_later c p x s (contains-split c p s f (unfold contains in rw e at h))
]

split_wild-ne-none :
    (segments : List Str) → any is_wild segments ≡ true → split_wild segments ≢ none
unfolding split_wild
split_wild-ne-none [] h = cc
split_wild-ne-none (seg ∷ segments) h = ground (arith, split_wild-ne-none segments)

is_wild-any :
    (segments : List Str)
    → (any (contains (codes "**")) segments || any (contains (codes "..")) segments)
      ≡ any is_wild segments
unfolding is_wild
is_wild-any [] = refl
is_wild-any (seg ∷ segments) = ground (arith, is_wild-any segments)

-- Where the path holds `**` or `..`, one of its segments does.
pub is_wild-split : (s : Str) → is_wild s ≡ true → any is_wild (split b'/' s) ≡ true
is_wild-split s h =
    let found : (contains (codes "**") s || contains (codes "..") s) ≡ true = unfold is_wild in h in
    rw (← is_wild-any (split b'/' s)) (
      ground (
        arith,
        contains-split b'/' (codes "**") s (unfold contains_char in refl),
        contains-split b'/' (codes "..") s (unfold contains_char in refl),
      ))

-- A segment without special characters.
pub record IsLiteral (s : Str) : Type 0 where
  pub filled : is_empty s ≡ false
  pub no_slash : Free b'/' s
  pub no_star : contains_char b'*' s ≡ false
  pub no_bracket : opens s ≡ false
  pub no_wild : is_wild s ≡ false

Free-of_IsLiteral : (segments : List Str) → All IsLiteral segments → All (Free b'/') segments
Free-of_IsLiteral [] h = tt
Free-of_IsLiteral (s ∷ segments) (h, hs) = (h.no_slash, Free-of_IsLiteral segments hs)

split_route :
    (segments : List Str)
    → All IsLiteral segments
    → split b'/' (join b'/' ([] ∷ segments)) ≡ [] ∷ segments
split_route segments h =
    split-join b'/' ([] ∷ segments) (λ e. cc)
      (unfold contains_char in refl, Free-of_IsLiteral segments h)

module _ {R : Type 0} (compile : Str → Result R Str) where
  -- `new_path` finds the wildcard that it looks for.
  pub new_path_wild :
      (s : Str)
      → is_wild s ≡ true
      → (start : List Str) × (seg : Str) × (finish : List Str) × (split_wild (split b'/' s)
          ≡ some (start, seg, finish))
  new_path_wild s h = elim (Option-cases (split_wild (split b'/' s))) [
    | inl e ↦ absurd (split_wild-ne-none (split b'/' s) (is_wild-split s h) e)
    | inr ((start, seg, finish), e) ↦ (start, seg, finish, e)
  ]

  new_segment_of_IsLiteral : (s : Str) → IsLiteral s → new_segment compile s ≡ ok (static s)
  unfolding new_segment
  new_segment_of_IsLiteral s h = ground arith

  collect_segments_of_IsLiteral :
      (segments : List Str)
      → All IsLiteral segments
      → collect_segments compile segments ≡ (map static segments, none)
  unfolding collect_segments
  collect_segments_of_IsLiteral [] h = refl
  collect_segments_of_IsLiteral (s ∷ segments) (h, hs) =
      ground
        (arith, collect_segments_of_IsLiteral segments hs, h.filled, new_segment_of_IsLiteral s h)

  not_wild_of_IsLiteral :
      (segments : List Str) → All IsLiteral segments → any is_wild segments ≡ false
  not_wild_of_IsLiteral [] h = refl
  not_wild_of_IsLiteral (s ∷ segments) (h, hs) =
      ground (arith, not_wild_of_IsLiteral segments hs, h.no_wild)

  no_wild_join :
      (segments : List Str) → All IsLiteral segments → is_wild (join b'/' ([] ∷ segments)) ≡ false
  no_wild_join segments h = elim (Bool-cases (is_wild (join b'/' ([] ∷ segments)))) [
    | inl e ↦
        let found : any is_wild ([] ∷ segments) ≡ true =
          rw (split_route segments h) at (is_wild-split (join b'/' ([] ∷ segments)) e) in
        absurd (unfold is_wild in cc (not_wild_of_IsLiteral segments h))
    | inr e ↦ e
  ]

  skip_empty :
      (segments : List Str)
      → collect_segments compile ([] ∷ segments) ≡ collect_segments compile segments
  unfolding collect_segments
  skip_empty segments = refl

  parse_segments_of_IsLiteral :
      (segments : List Str)
      → All IsLiteral segments
      → parse_segments compile ([] ∷ segments) ≡ ok (map static segments)
  unfolding parse_segments
  parse_segments_of_IsLiteral segments h =
      ground (arith, collect_segments_of_IsLiteral segments h, skip_empty segments)

  -- A route of literal segments becomes a matcher of exactly these segments.
  pub new_path_of_IsLiteral :
      (segments : List Str)
      → All IsLiteral segments
      → new_path compile (join b'/' ([] ∷ segments)) ≡ ok (simple (map static segments))
  new_path_of_IsLiteral segments h =
      unfold new_path in
      rw (no_wild_join segments h) (
        rw (split_route segments h) (
          ap (λ (r : Result (List (SegmentMatcher R)) Str). r >>= λ inner. ok (simple inner))
            (parse_segments_of_IsLiteral segments h)))
