-- ===== src/File/Range/ContentRoundTrip.antt =====
-- Printing the header `Content-Range` and reading it again.
use saphir.Base.{ℕ, ◌≡◌, ◌≢◌, ◌≤◌, ◌<◌, refl, false, [], ◌∷◌, ◌++◌, Option, none, some, arith}
use saphir.Text.{Str, codes, str_eq, split_once, contains_char}
use saphir.Text.Laws.{split_once-append, contains_char-append, str_eq_refl}
use saphir.Text.Split.{Free}
use saphir.Text.Decimal.{print_u64, u64_limit, is_digit}
use saphir.Text.Decimal.RoundTrip.{
  print_u64-AllDigits, print_u64-ne-nil, AllDigits, parse_u64-print_u64,
}
use saphir.File.Range.{
  ContentRange, content_bytes, content_other, parse_length, parse_bounds, parse_content,
  print_bounds, print_length, print_content,
}
use saphir.File.Range.RoundTrip.{append-nil, print_u64-Free}

-- The bounds are 64 bits wide and in order, and so is the length.
abbrev pub BoundsAreValid : Option (ℕ × ℕ) → Type 0
BoundsAreValid none = Unit
BoundsAreValid (some (from, to)) = (from ≤ to) × (to < u64_limit)

abbrev pub LengthIsValid : Option ℕ → Type 0
LengthIsValid none = Unit
LengthIsValid (some n) = n < u64_limit

-- A unit has no space, and is not the unit of bytes.
abbrev pub ContentIsValid : ContentRange → Type 0
ContentIsValid (content_bytes range instance_length) =
    BoundsAreValid range × LengthIsValid instance_length
ContentIsValid (content_other unit resp) = Free 32 unit × (str_eq unit (codes "bytes") ≡ false)

not_star : (s t : Str) → AllDigits s → s ≢ [] → str_eq (s ++ t) (codes "*") ≡ false
unfolding str_eq is_digit
not_star [] t h n = absurd (n refl)
not_star (c ∷ s) t h n = ground arith

print_u64-ne-star : (n : ℕ) (t : Str) → str_eq (print_u64 n ++ t) (codes "*") ≡ false
print_u64-ne-star n t = not_star (print_u64 n) t (print_u64-AllDigits n) (print_u64-ne-nil n)

parse_length-print_length :
    (length : Option ℕ) → LengthIsValid length → parse_length (print_length length) ≡ some length
unfolding parse_length print_length
parse_length-print_length none h = rw (str_eq_refl (codes "*")) refl
parse_length-print_length (some n) h =
    let not_a_star : str_eq (print_u64 n) (codes "*") ≡ false =
      rw (append-nil (print_u64 n)) at (print_u64-ne-star n []) in
    rw (not_a_star, parse_u64-print_u64 n h) refl

parse_bounds-print_bounds :
    (range : Option (ℕ × ℕ)) → BoundsAreValid range → parse_bounds (print_bounds range) ≡ some range
unfolding parse_bounds print_bounds is_digit
parse_bounds-print_bounds none h = rw (str_eq_refl (codes "*")) refl
parse_bounds-print_bounds (some (from, to)) (h, k) =
    rw
      (
        print_u64-ne-star from (codes "-" ++ print_u64 to),
        split_once-append 45 (print_u64 from) (print_u64 to) (print_u64-Free 45 from refl),
        parse_u64-print_u64 from (omega (arith, h, k)),
        parse_u64-print_u64 to k,
      )
      (ground arith)

print_bounds-Free : (range : Option (ℕ × ℕ)) → Free 47 (print_bounds range)
unfolding print_bounds contains_char is_digit
print_bounds-Free none = refl
print_bounds-Free (some (from, to)) =
    rw
      (
        contains_char-append 47 (print_u64 from) (codes "-" ++ print_u64 to),
        print_u64-Free 47 from refl,
      )
      (print_u64-Free 47 to refl)

-- A printed content range is read back.
pub parse_content-print_content :
    (content : ContentRange)
    → ContentIsValid content
    → parse_content (print_content content) ≡ some content
unfolding parse_content print_content
parse_content-print_content (content_bytes range length) (h, k) =
    let at_space : split_once 32
          (codes "bytes " ++ (print_bounds range ++ (codes "/" ++ print_length length)))
        ≡ some (codes "bytes", print_bounds range ++ (codes "/" ++ print_length length)) =
      split_once-append 32 (codes "bytes")
        (print_bounds range ++ (codes "/" ++ print_length length)) (unfold contains_char in refl) in
    rw
      (
        at_space,
        parse_content,
        str_eq_refl (codes "bytes"),
        split_once-append 47 (print_bounds range) (print_length length) (print_bounds-Free range),
        parse_length-print_length length k,
        parse_bounds-print_bounds range h,
      )
      refl
parse_content-print_content (content_other unit resp) (free, other) =
    rw (split_once-append 32 unit resp free, parse_content, other) refl
