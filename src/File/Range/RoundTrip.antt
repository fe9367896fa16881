-- ===== src/File/Range/RoundTrip.antt =====
-- Printing the header `Range` and reading it again.
use mathlib.Core.List.{reverse-reverse, reverse-cons}
use saphir.Base.{
  ℕ, ◌≡◌, ◌≢◌, ◌≤◌, ◌<◌, refl, ap, false, List, [], ◌∷◌, ◌++◌, map, reverse, some, arith, is_empty,
  All, All-append,
}
use saphir.Text.{Str, codes, split_once, contains_char, is_whitespace, trim, trim_start}
use saphir.Text.Laws.{split_once-append, contains_char-append, str_eq_refl}
use saphir.Text.Split.{join, Free, split-join}
use saphir.Text.Decimal.{print_u64, u64_limit, is_digit}
use saphir.Text.Decimal.RoundTrip.{
  AllDigits, print_u64-AllDigits, print_u64-ne-nil, parse_u64-print_u64, contains_char_of_AllDigits,
}
use saphir.File.Range.{
  ByteRangeSpec, from_to, all_from, last, bytes, print_spec, print_more, print_specs, print_range,
  parse_spec, collect_specs, from_comma_delimited, parse_range,
}

-- The numbers are 64 bits wide, and a range with both ends is in order.
abbrev pub IsValid : ByteRangeSpec → Type 0
IsValid (from_to from to) = (from ≤ to) × (to < u64_limit)
IsValid (all_from from) = from < u64_limit
IsValid (last count) = count < u64_limit

pub is_empty-print_u64 : (n : ℕ) → is_empty (print_u64 n) ≡ false
is_empty-print_u64 n = ground (arith, print_u64-ne-nil n)

pub print_u64-Free : (c n : ℕ) → is_digit c ≡ false → Free c (print_u64 n)
print_u64-Free c n e = contains_char_of_AllDigits c (print_u64 n) e (print_u64-AllDigits n)

-- A printed range is read back.
pub parse_spec-print_spec :
    (spec : ByteRangeSpec) → IsValid spec → parse_spec (print_spec spec) ≡ some spec
unfolding parse_spec print_spec is_digit contains_char
parse_spec-print_spec (from_to from to) (h, k) =
    rw
      (
        split_once-append 45 (print_u64 from) (print_u64 to) (print_u64-Free 45 from refl),
        parse_spec,
        is_empty-print_u64 from,
        is_empty-print_u64 to,
        parse_u64-print_u64 from (omega (arith, h, k)),
        parse_u64-print_u64 to k,
      )
      (ground arith)
parse_spec-print_spec (all_from from) h =
    rw
      (
        split_once-append 45 (print_u64 from) [] (print_u64-Free 45 from refl),
        parse_spec,
        is_empty-print_u64 from,
        parse_u64-print_u64 from h,
      )
      refl
parse_spec-print_spec (last count) h =
    rw (split_once-append 45 [] (print_u64 count) refl, parse_spec, parse_u64-print_u64 count h)
      refl

abbrev Dark : ℕ → Type 0
Dark c = is_whitespace c ≡ false

trim_start_of_Dark : (s : Str) → All Dark s → trim_start s ≡ s
unfolding trim_start
trim_start_of_Dark [] h = refl
trim_start_of_Dark (x ∷ s) (h, hs) = ground arith

reverse-Dark : (s : Str) → All Dark s → All Dark (reverse s)
reverse-Dark [] h = tt
reverse-Dark (x ∷ s) (h, hs) =
    rw reverse-cons (All-append Dark (reverse s) (x ∷ []) (reverse-Dark s hs) (h, tt))

trim_of_Dark : (s : Str) → All Dark s → trim s ≡ s
unfolding trim
trim_of_Dark s h =
    rw (trim_start_of_Dark s h, trim_start_of_Dark (reverse s) (reverse-Dark s h))
      (reverse-reverse s)

digits-Dark : (s : Str) → AllDigits s → All Dark s
unfolding is_digit is_whitespace
digits-Dark [] h = tt
digits-Dark (x ∷ s) (h, hs) = (ground arith, digits-Dark s hs)

print_u64-Dark : (n : ℕ) → All Dark (print_u64 n)
print_u64-Dark n = digits-Dark (print_u64 n) (print_u64-AllDigits n)

is_empty-append : (a b : Str) → is_empty a ≡ false → is_empty (a ++ b) ≡ false
is_empty-append [] b e = absurd (cc e)
is_empty-append (x ∷ a) b e = refl

pub append-nil : (a : Str) → a ++ [] ≡ a
append-nil [] = refl
append-nil (x ∷ a) = ap (λ t. x ∷ t) (append-nil a)

print_spec-Dark : (spec : ByteRangeSpec) → All Dark (print_spec spec)
unfolding print_spec is_whitespace
print_spec-Dark (from_to from to) =
    All-append Dark (print_u64 from) (codes "-" ++ print_u64 to) (print_u64-Dark from)
      (refl, print_u64-Dark to)
print_spec-Dark (all_from from) =
    All-append Dark (print_u64 from) (codes "-") (print_u64-Dark from) (refl, tt)
print_spec-Dark (last count) = (refl, print_u64-Dark count)

print_spec-Free : (spec : ByteRangeSpec) → Free 44 (print_spec spec)
unfolding print_spec contains_char is_digit
print_spec-Free (from_to from to) =
    rw
      (
        contains_char-append 44 (print_u64 from) (codes "-" ++ print_u64 to),
        print_u64-Free 44 from refl,
      )
      (print_u64-Free 44 to refl)
print_spec-Free (all_from from) =
    rw (contains_char-append 44 (print_u64 from) (codes "-"), print_u64-Free 44 from refl) refl
print_spec-Free (last count) = print_u64-Free 44 count refl

is_empty-print_spec : (spec : ByteRangeSpec) → is_empty (print_spec spec) ≡ false
unfolding print_spec
is_empty-print_spec (from_to from to) =
    is_empty-append (print_u64 from) (codes "-" ++ print_u64 to) (is_empty-print_u64 from)
is_empty-print_spec (all_from from) =
    is_empty-append (print_u64 from) (codes "-") (is_empty-print_u64 from)
is_empty-print_spec (last count) = refl

print_more-join :
    (x : ByteRangeSpec) (xs : List ByteRangeSpec)
    → print_spec x ++ print_more xs ≡ join 44 (map print_spec (x ∷ xs))
unfolding print_more join
print_more-join x [] = append-nil (print_spec x)
print_more-join x (y ∷ ys) = ap (λ t. print_spec x ++ 44 ∷ t) (print_more-join y ys)

print_specs-join : (specs : List ByteRangeSpec) → print_specs specs ≡ join 44 (map print_spec specs)
unfolding print_specs
print_specs-join [] = unfold join in refl
print_specs-join (spec ∷ specs) = print_more-join spec specs

map-Free : (specs : List ByteRangeSpec) → All (Free 44) (map print_spec specs)
map-Free [] = tt
map-Free (spec ∷ specs) = (print_spec-Free spec, map-Free specs)

collect_specs-map :
    (specs : List ByteRangeSpec) → All IsValid specs → collect_specs (map print_spec specs) ≡ specs
unfolding collect_specs
collect_specs-map [] h = refl
collect_specs-map (spec ∷ specs) (h, hs) =
    rw
      (
        trim_of_Dark (print_spec spec) (print_spec-Dark spec),
        is_empty-print_spec spec,
        parse_spec-print_spec spec h,
        collect_specs-map specs hs,
      )
      refl

-- A printed header of valid ranges, at least one, is read back.
pub parse_range-print_range :
    (specs : List ByteRangeSpec)
    → specs ≢ []
    → All IsValid specs
    → parse_range (print_range (bytes specs)) ≡ some (bytes specs)
unfolding parse_range print_range from_comma_delimited
parse_range-print_range [] n h = absurd (n refl)
parse_range-print_range (spec ∷ specs) n h =
    let at_equals : split_once 61 (codes "bytes=" ++ print_specs (spec ∷ specs))
        ≡ some (codes "bytes", print_specs (spec ∷ specs)) =
      split_once-append 61 (codes "bytes") (print_specs (spec ∷ specs))
        (unfold contains_char in refl) in
    rw
      (
        at_equals,
        parse_range,
        from_comma_delimited,
        str_eq_refl (codes "bytes"),
        print_specs-join (spec ∷ specs),
        split-join 44 (map print_spec (spec ∷ specs)) (λ e. cc) (map-Free (spec ∷ specs)),
        collect_specs-map (spec ∷ specs) h,
      )
      refl
