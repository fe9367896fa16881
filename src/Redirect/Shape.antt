-- ===== src/Redirect/Shape.antt =====
-- The parts of a redirection that `build` makes, by its status.
use mathlib.Core.Path.{subst}
use saphir.Base.{
  ok-injective, ℕ, ◌≡◌, inl, inr, refl, Bool, true, false, ◌&&◌, ◌||◌, ◌==◌, Option, ok, >>=-eq-ok,
  is_some, unwrap_or, Bool-cases, arith,
}
use saphir.Text.{Str, codes}
use saphir.Redirect.{
  Builder, Redirect, has_location, push_part, assert_all, assert_form_data, assert_location,
  assert_query, assert_fragment, assert_content, format_location, format_form_data, build,
}

-- The statuses that are built
abbrev pub is_built : Bool → ℕ → Bool
is_built post_redirect status =
    has_location status || status == 304 || status == 300 || post_redirect && status == 200

-- The status of the builder, a location with the statuses of a redirection, and a content with 300
-- and 200.
abbrev pub HasShape :
    {Content Jar : Type 0} → Bool → Builder Content Jar → Redirect Content Jar → Type 0
HasShape post_redirect b r =
    (r.status ≡ b.status)
    × (is_some r.location ≡ has_location r.status)
    × (is_some r.content ≡ (r.status == 300 || r.status == 200))
    × (is_built post_redirect r.status ≡ true)

module _ {Content Jar : Type 0} (b : Builder Content Jar) where
  assert_all-status :
      (post_redirect : Bool) {u : Unit}
      → assert_all post_redirect b ≡ ok u
      → is_built post_redirect b.status ≡ true
  unfolding assert_all
  assert_all-status post_redirect e = ground arith

  assert_all-location :
      (post_redirect : Bool) {u : Unit}
      → assert_all post_redirect b ≡ ok u
      → is_some b.location ≡ (has_location b.status || post_redirect && b.status == 200)
  unfolding assert_all assert_location
  assert_all-location post_redirect e = ground arith

  assert_all-content :
      (post_redirect : Bool) {u : Unit}
      → assert_all post_redirect b ≡ ok u
      → post_redirect && b.status == 200 ≡ false
      → is_some b.content ≡ (b.status == 300)
  unfolding assert_all assert_content assert_location assert_query assert_fragment assert_form_data
  assert_all-content post_redirect e h = ground arith

module _ {Content Jar : Type 0} (parse_uri : Str → Option Str) (to_content : Str → Content) where
  format_location-is_some :
      (b : Builder Content Jar) {location : Option Str}
      → format_location parse_uri to_content b ≡ ok location
      → is_some location ≡ is_some b.location
  unfolding format_location push_part
  format_location-is_some b e = ground arith

  -- A redirection keeps the status, and it has a location exactly with the five statuses of a
  -- redirection and a content exactly with 300 and the 200 of a post redirect; no other status
  -- but 304 is built.
  pub build-shape :
      (post_redirect : Bool) (b : Builder Content Jar) {r : Redirect Content Jar}
      → build parse_uri to_content post_redirect b ≡ ok r
      → HasShape post_redirect b r
  unfolding build
  build-shape post_redirect b {r} e =
      let (_, asserted, e1) = >>=-eq-ok (assert_all post_redirect b) _ e in
      let (location, formatted, e2) = >>=-eq-ok (format_location parse_uri to_content b) _ e1 in
      let status = assert_all-status b post_redirect asserted in
      let has = assert_all-location b post_redirect asserted in
      let content = assert_all-content b post_redirect asserted in
      let same = format_location-is_some b formatted in
      elim (Bool-cases (post_redirect && b.status == 200)) [
        | inl p ↦
            let (form, _, last) =
              >>=-eq-ok (format_form_data to_content (unwrap_or location (codes "/")) b.form_data) _
                (rw p at e2) in
            subst (λ (x : Redirect Content Jar). HasShape post_redirect b x) (ok-injective last)
              (refl, ground arith, ground arith, status)
        | inr p ↦
            subst (λ (x : Redirect Content Jar). HasShape post_redirect b x)
              (ok-injective (rw p at e2))
              (refl, ground (arith, content p), ground (arith, content p), status)
      ]
