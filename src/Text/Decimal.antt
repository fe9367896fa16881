-- ===== src/Text/Decimal.antt =====
-- `u64::to_string` and `str::parse::<u64>`.
pub mod RoundTrip
use saphir.Base.{
  ℕ, zero, suc, ◌+◌, ◌-◌, ◌*◌, ◌/◌, ◌%◌, ◌^◌, Bool, ◌&&◌, [], ◌∷◌, Option, none, some, ltb, leb,
  ◌==◌, if◌then◌else◌,
}
use saphir.Text.{Str}

abbrev pub u64_limit : ℕ
u64_limit = 2 ^ 64

-- The digits of `n` in front of `out`; `fuel` bounds their number.
unfoldable pub digits : ℕ → ℕ → Str → Str
digits zero n out = out
digits (suc fuel) n out =
    let out' = (b'0' + n % 10) ∷ out in
    let rest = digits fuel (n / 10) out' in if ltb n 10 then out' else rest

-- A `u64` has at most twenty digits.
unfoldable pub print_u64 : ℕ → Str
unfolding digits
print_u64 n = digits 20 n []

unfoldable pub is_digit : ℕ → Bool
is_digit c = leb b'0' c && leb c b'9'

-- The accumulator is checked at each digit, as `checked_mul` and `checked_add` do.
unfoldable pub scan_u64 : ℕ → Str → Option ℕ
unfolding is_digit
scan_u64 n [] = some n
scan_u64 n (c ∷ s) =
    let rest = scan_u64 (n * 10 + (c - b'0')) s in
    if is_digit c && ltb (n * 10 + (c - b'0')) u64_limit then rest else none

-- One leading `+` is allowed, if a digit follows.
unfoldable pub parse_u64 : Str → Option ℕ
unfolding scan_u64
parse_u64 [] = none
parse_u64 (c ∷ []) = if c == b'+' then none else scan_u64 0 (c ∷ [])
parse_u64 (c ∷ d ∷ s) = scan_u64 0 (if c == b'+' then d ∷ s else c ∷ d ∷ s)
