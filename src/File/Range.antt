-- ===== src/File/Range.antt =====
-- saphir/src/file/range.rs and content_range.rs: the headers `Range` and `Content-Range`, and the part
-- of range_requests.rs that turns one into the other. The texts of the errors are left out.
pub mod Bounds
pub mod RoundTrip
pub mod ContentRoundTrip
use saphir.Base.{
  ℕ, ◌-◌, min, not, ◌&&◌, List, [], ◌∷◌, ◌++◌, Option, none, some, if◌then◌else◌, ltb, leb, ◌==◌,
  is_empty,
}
use saphir.Text.{Str, codes, str_eq, split, split_once, trim}
use saphir.Text.Decimal.{print_u64, parse_u64}

pub data ByteRangeSpec : Type 0 where
  from_to : ℕ → ℕ → ByteRangeSpec
  all_from : ℕ → ByteRangeSpec
  last : ℕ → ByteRangeSpec

pub data Range : Type 0 where
  bytes : List ByteRangeSpec → Range
  unregistered : Str → Str → Range

-- `ByteRangeSpec::to_satisfiable_range`: no subtraction of it goes below 0.
unfoldable pub to_satisfiable_range : ByteRangeSpec → ℕ → Option (ℕ × ℕ)
to_satisfiable_range (from_to from to) full_length =
    if full_length == 0
    then none
    else if ltb from full_length && leb from to
    then some (from, min to (full_length - 1))
    else none
to_satisfiable_range (all_from from) full_length =
    if full_length == 0
    then none
    else if ltb from full_length
    then some (from, full_length - 1)
    else none
to_satisfiable_range (last count) full_length =
    if full_length == 0
    then none
    else if ltb 0 count
    then if ltb full_length count
      then some (0, full_length - 1)
      else some (full_length - count, full_length - 1)
    else none

-- `Display` of a byte range
unfoldable pub print_spec : ByteRangeSpec → Str
print_spec (from_to from to) = print_u64 from ++ (codes "-" ++ print_u64 to)
print_spec (last pos) = codes "-" ++ print_u64 pos
print_spec (all_from pos) = print_u64 pos ++ codes "-"

-- The loop of `Display` of a range, after the first range
unfoldable pub print_more : List ByteRangeSpec → Str
print_more [] = []
print_more (range ∷ ranges) = codes "," ++ (print_spec range ++ print_more ranges)

unfoldable pub print_specs : List ByteRangeSpec → Str
print_specs [] = []
print_specs (range ∷ ranges) = print_spec range ++ print_more ranges

-- `Display` of a range
unfoldable pub print_range : Range → Str
print_range (bytes ranges) = codes "bytes=" ++ print_specs ranges
print_range (unregistered unit range_str) = unit ++ (codes "=" ++ range_str)

-- `FromStr` of a byte range
unfoldable pub parse_spec : Str → Option ByteRangeSpec
parse_spec s = elim (split_once 45 s) [
  | none ↦ none
  | some (start, finish) ↦
      if is_empty start
      then elim (parse_u64 finish) [ some n ↦ some (last n) | none ↦ none ]
      else if is_empty finish
      then elim (parse_u64 start) [ some n ↦ some (all_from n) | none ↦ none ]
      else elim (parse_u64 start) [
        | none ↦ none
        | some from ↦ elim (parse_u64 finish) [
          | none ↦ none
          | some to ↦ if leb from to then some (from_to from to) else none
        ]
      ]
]

-- `from_comma_delimited` on the parts: the empty ones and those that do not parse are left out.
unfoldable pub collect_specs : List Str → List ByteRangeSpec
collect_specs [] = []
collect_specs (x ∷ xs) =
    let rest = collect_specs xs in
    if is_empty (trim x)
    then rest
    else elim (parse_spec (trim x)) [ some spec ↦ spec ∷ rest | none ↦ rest ]

unfoldable pub from_comma_delimited : Str → List ByteRangeSpec
from_comma_delimited s = collect_specs (split 44 s)

-- `FromStr` of a range
unfoldable pub parse_range : Str → Option Range
parse_range s = elim (split_once 61 s) [
  | none ↦ none
  | some (unit, range_str) ↦
      if str_eq unit (codes "bytes")
      then (let ranges = from_comma_delimited range_str in
          if is_empty ranges then none else some (bytes ranges))
      else if not (is_empty unit) && not (is_empty range_str)
      then some (unregistered unit range_str)
      else none
]

pub data ContentRange : Type 0 where
  content_bytes : (range : Option (ℕ × ℕ)) (instance_length : Option ℕ) → ContentRange
  content_other : (unit resp : Str) → ContentRange

-- The length after the `/`
unfoldable pub parse_length : Str → Option (Option ℕ)
parse_length s =
    if str_eq s (codes "*")
    then some none
    else elim (parse_u64 s) [ some n ↦ some (some n) | none ↦ none ]

-- The range before the `/`
unfoldable pub parse_bounds : Str → Option (Option (ℕ × ℕ))
parse_bounds s = if str_eq s (codes "*") then some none else elim (split_once 45 s) [
  | none ↦ none
  | some (first, final) ↦ elim (parse_u64 first) [
    | none ↦ none
    | some first_byte ↦ elim (parse_u64 final) [
      | none ↦ none
      | some last_byte ↦
          if ltb last_byte first_byte then none else some (some (first_byte, last_byte))
    ]
  ]
]

-- `FromStr` of a content range
unfoldable pub parse_content : Str → Option ContentRange
parse_content s = elim (split_once 32 s) [
  | none ↦ none
  | some (unit, resp) ↦
      if str_eq unit (codes "bytes")
      then elim (split_once 47 resp) [
        | none ↦ none
        | some (range, length) ↦ elim (parse_length length) [
          | none ↦ none
          | some instance_length ↦ elim (parse_bounds range) [
            | none ↦ none
            | some bounds ↦ some (content_bytes bounds instance_length)
          ]
        ]
      ]
      else some (content_other unit resp)
]

unfoldable pub print_bounds : Option (ℕ × ℕ) → Str
print_bounds none = codes "*"
print_bounds (some (first_byte, last_byte)) =
    print_u64 first_byte ++ (codes "-" ++ print_u64 last_byte)

unfoldable pub print_length : Option ℕ → Str
print_length none = codes "*"
print_length (some n) = print_u64 n

-- `Display` of a content range
unfoldable pub print_content : ContentRange → Str
print_content (content_bytes range instance_length) =
    codes "bytes " ++ (print_bounds range ++ (codes "/" ++ print_length instance_length))
print_content (content_other unit resp) = unit ++ (codes " " ++ resp)

-- range_requests.rs
unfoldable pub is_satisfiable_range : Range → ℕ → Option ContentRange
is_satisfiable_range (bytes (spec ∷ [])) instance_length =
    elim (to_satisfiable_range spec instance_length) [
      | some range ↦ some (content_bytes (some range) (some instance_length))
      | none ↦ none
    ]
is_satisfiable_range (bytes []) instance_length = none
is_satisfiable_range (bytes (_ ∷ _ ∷ _)) instance_length = none
is_satisfiable_range (unregistered _ _) instance_length = none

unfoldable pub extract_range : ContentRange → Option (ℕ × ℕ)
extract_range (content_bytes range _) = range
extract_range (content_other _ _) = none
