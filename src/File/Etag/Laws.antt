-- ===== src/File/Etag/Laws.antt =====
-- The two comparisons of entity tags, and the text of a tag.
use mathlib.Core.List.{reverse-reverse, reverse-append, reverse-cons}
use saphir.Base.{
  ℕ, zero, suc, ◌≡◌, ◌≢◌, ◌↔◌, refl, ap, ◌∙◌, true, false, [], ◌∷◌, ◌++◌, reverse, none, arith,
  length,
}
use saphir.Text.{
  Str, codes, starts_with, strip_prefix, trim_start_matches, trim_end_matches, trim_prefix_rounds,
  contains_char,
}
use saphir.Text.Laws.{str_eq_iff, strip_prefix-append, contains_char-append}
use saphir.File.Etag.{EntityTag, strong, weak, parse_tag, get_tag, is_weak, text_of, strong_eq}

-- The strong comparison holds exactly of equal tags that are strong.
pub strong_eq_iff : (a b : EntityTag) → (strong_eq a b ≡ true) ↔ ((a ≡ b) × (is_weak a ≡ false))
unfolding strong_eq
strong_eq_iff (strong a) (strong b) = ground (arith, str_eq_iff a b)
strong_eq_iff (strong a) (weak b) = ground arith
strong_eq_iff (weak a) (strong b) = ground arith
strong_eq_iff (weak a) (weak b) = ground arith

trim_rounds_once :
    (fuel : ℕ) (p s : Str) → strip_prefix p s ≡ none → trim_prefix_rounds fuel p s ≡ s
unfolding trim_prefix_rounds
trim_rounds_once zero p s e = refl
trim_rounds_once (suc fuel) p s e = rw (e, trim_prefix_rounds) refl

trim_rounds_more :
    (fuel : ℕ) (p s : Str) → trim_prefix_rounds (suc fuel) p (p ++ s) ≡ trim_prefix_rounds fuel p s
unfolding trim_prefix_rounds
trim_rounds_more fuel p s = rw (strip_prefix-append p s, trim_prefix_rounds) refl

trim_start_matches-append :
    (p s : Str) → p ≢ [] → strip_prefix p s ≡ none → trim_start_matches p (p ++ s) ≡ s
unfolding trim_start_matches
trim_start_matches-append [] s n e = absurd (n refl)
trim_start_matches-append (c ∷ p) s n e =
    trim_rounds_more (length (p ++ s)) (c ∷ p) s ∙ trim_rounds_once (length (p ++ s)) (c ∷ p) s e

-- No quote of a text without one is stripped, at its start or its end.
strip_quote_of_Free :
    (tag : Str) → contains_char 34 tag ≡ false → strip_prefix (codes "\"") tag ≡ none
unfolding strip_prefix contains_char
strip_quote_of_Free [] h = refl
strip_quote_of_Free (x ∷ tag) h = ground arith

reverse-Free : (c : ℕ) (s : Str) → contains_char c s ≡ false → contains_char c (reverse s) ≡ false
unfolding contains_char
reverse-Free c [] h = refl
reverse-Free c (x ∷ s) h =
    rw (reverse-cons, contains_char-append c (reverse s) (x ∷ []))
      (ground (arith, reverse-Free c s))

trim_end_matches_quote :
    (tag : Str)
    → contains_char 34 tag ≡ false
    → trim_end_matches (codes "\"") (tag ++ codes "\"") ≡ tag
unfolding trim_end_matches
trim_end_matches_quote tag h =
    rw
      (
        reverse-append,
        trim_start_matches-append (codes "\"") (reverse tag) (λ e. cc)
            (strip_quote_of_Free (reverse tag) (reverse-Free 34 tag h)),
      )
      (reverse-reverse tag)

strip_weak_of_Free :
    (tag : Str)
    → contains_char 34 tag ≡ false
    → tag ≢ codes "W/"
    → strip_prefix (codes "W/\"") (tag ++ codes "\"") ≡ none
unfolding strip_prefix contains_char
strip_weak_of_Free [] h n = refl
strip_weak_of_Free (a ∷ []) h n = ground arith
strip_weak_of_Free (a ∷ b ∷ []) h n = ground arith
strip_weak_of_Free (a ∷ b ∷ c ∷ tag) h n = ground arith

-- A tag without quotes is read back from its text, but for the weak tag `W/`.
pub parse_tag-get_tag :
    (tag : EntityTag)
    → contains_char 34 (text_of tag) ≡ false
    → tag ≢ weak (codes "W/")
    → parse_tag (get_tag tag) ≡ tag
unfolding parse_tag get_tag starts_with strip_prefix
parse_tag-get_tag (strong []) h n =
    unfold trim_end_matches trim_start_matches trim_prefix_rounds in refl
parse_tag-get_tag (strong (x ∷ tag)) h n =
    let starts : strip_prefix (codes "\"") ((x ∷ tag) ++ codes "\"") ≡ none =
      unfold contains_char in ground arith in
    ap strong (
      ap (trim_end_matches (codes "\""))
        (trim_start_matches-append (codes "\"") ((x ∷ tag) ++ codes "\"") (λ e. cc) starts)
      ∙ trim_end_matches_quote (x ∷ tag) h)
parse_tag-get_tag (weak tag) h n = ap weak (
    ap (trim_end_matches (codes "\"")) (
      trim_start_matches-append (codes "W/\"") (tag ++ codes "\"") (λ e. cc)
        (strip_weak_of_Free tag h (λ e. n (ap weak e))))
    ∙ trim_end_matches_quote tag h)
