-- ===== src/Text/Decimal/RoundTrip.antt =====
-- `parse_u64` reads back what `print_u64` writes.
use native.Mathlib.Nat.{pow-suc}
use saphir.Base.{
  ℕ, zero, suc, ◌+◌, ◌-◌, ◌*◌, ◌/◌, ◌%◌, ◌^◌, ◌<◌, ◌≡◌, ◌≢◌, refl, ◌∙◌, true, false, [], ◌∷◌, some,
  arith, ltb, ◌==◌, if◌then◌else◌, All, Bool-cases, inl, inr,
}
use saphir.Text.{Str, contains_char}
use saphir.Text.Decimal.{u64_limit, digits, print_u64, is_digit, scan_u64, parse_u64}

abbrev pub AllDigits : Str → Type 0
AllDigits = All (λ c. is_digit c ≡ true)

scan_u64_digit :
    (n : ℕ) (out : Str) → n < u64_limit → scan_u64 (n / 10) ((b'0' + n % 10) ∷ out) ≡ scan_u64 n out
unfolding scan_u64
scan_u64_digit n out h = ground arith

scan_u64_last : (n : ℕ) (out : Str) → n < 10 → scan_u64 0 ((b'0' + n % 10) ∷ out) ≡ scan_u64 n out
unfolding scan_u64
scan_u64_last n out h = ground arith

scan_u64-digits :
    (fuel n : ℕ) (out : Str)
    → n < 10 ^ suc fuel
    → n < u64_limit
    → scan_u64 0 (digits (suc fuel) n out) ≡ scan_u64 n out
unfolding digits
scan_u64-digits zero n out h k =
    let small : n < 10 = omega (arith, pow-suc 10 0) in ground (arith, scan_u64_last n out)
scan_u64-digits (suc fuel) n out h k = elim (Bool-cases (ltb n 10)) [
  | inl small ↦ rw small (scan_u64_last n out (ground arith))
  | inr big ↦
      let step : n / 10 < 10 ^ suc fuel = omega (arith, pow-suc 10 (suc fuel)) in
      rw big (
        scan_u64-digits fuel (n / 10) ((b'0' + n % 10) ∷ out) step (omega arith)
        ∙ scan_u64_digit n out k)
]

digits-AllDigits : (fuel n : ℕ) (out : Str) → AllDigits out → AllDigits (digits fuel n out)
unfolding digits is_digit
digits-AllDigits zero n out h = h
digits-AllDigits (suc fuel) n out h =
    ground (arith, digits-AllDigits fuel (n / 10) ((b'0' + n % 10) ∷ out))

digits-ne-nil : (fuel n : ℕ) (out : Str) → out ≢ [] → digits fuel n out ≢ []
unfolding digits
digits-ne-nil zero n out h = h
digits-ne-nil (suc fuel) n out h =
    ground (arith, digits-ne-nil fuel (n / 10) ((b'0' + n % 10) ∷ out))

pub print_u64-AllDigits : (n : ℕ) → AllDigits (print_u64 n)
unfolding print_u64
print_u64-AllDigits n = digits-AllDigits 20 n [] tt

pub print_u64-ne-nil : (n : ℕ) → print_u64 n ≢ []
unfolding print_u64
print_u64-ne-nil n = ground (arith, digits-ne-nil 19 (n / 10) ((b'0' + n % 10) ∷ []))

parse_u64_of_AllDigits : (s : Str) → s ≢ [] → AllDigits s → parse_u64 s ≡ scan_u64 0 s
unfolding parse_u64 is_digit
parse_u64_of_AllDigits [] n h = absurd (n refl)
parse_u64_of_AllDigits (c ∷ []) n h = ground arith
parse_u64_of_AllDigits (c ∷ d ∷ s) n h = ground arith

-- Every `u64` is read back from its decimal text.
pub parse_u64-print_u64 : (n : ℕ) → n < u64_limit → parse_u64 (print_u64 n) ≡ some n
parse_u64-print_u64 n h =
    parse_u64_of_AllDigits (print_u64 n) (print_u64-ne-nil n) (print_u64-AllDigits n)
    ∙ unfold print_u64 scan_u64 in scan_u64-digits 19 n [] (omega arith) h

-- A text of digits holds no other character.
pub contains_char_of_AllDigits :
    (c : ℕ) (s : Str) → is_digit c ≡ false → AllDigits s → contains_char c s ≡ false
unfolding contains_char is_digit
contains_char_of_AllDigits c [] e h = refl
contains_char_of_AllDigits c (x ∷ s) e h = ground (arith, contains_char_of_AllDigits c s e h.1)

scan_u64-lt :
    (s : Str) (acc : ℕ) {n : ℕ} → acc < u64_limit → scan_u64 acc s ≡ some n → n < u64_limit
unfolding scan_u64
scan_u64-lt [] acc h e = ground arith
scan_u64-lt (c ∷ s) acc {n} h e = ground (arith, scan_u64-lt s (acc * 10 + (c - b'0')) {n = n})

-- What is read is a `u64`.
pub parse_u64-lt : (s : Str) {n : ℕ} → parse_u64 s ≡ some n → n < u64_limit
unfolding parse_u64
parse_u64-lt [] e = cc
parse_u64-lt (c ∷ []) {n} e = ground (arith, scan_u64-lt (c ∷ []) 0 {n = n} (omega arith))
parse_u64-lt (c ∷ d ∷ s) {n} e =
    scan_u64-lt (if c == b'+' then d ∷ s else c ∷ d ∷ s) 0 (omega arith) e
