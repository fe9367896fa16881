-- ===== src/Openapi/Names.antt =====
-- saphir_cli/src/openapi/generate/mod.rs: the names `name`, `name_2`, `name_3` and so on, which schemas and operations get
-- where a name is taken.
use saphir.Base.{
  ℕ, zero, suc, ◌+◌, ◌-◌, ◌%◌, true, ltb, if◌then◌else◌, ◌<◌, ◌^◌, ◌≡◌, refl, ap, sym, arith, ◌∷◌,
  ◌++◌, length, length-append, ◌≢◌,
}
use mathlib.Core.List.{append_cancel_left}
use saphir.Text.{Str}
use saphir.Text.Decimal.{print_u64, parse_u64}
use saphir.Text.Decimal.RoundTrip.{parse_u64-print_u64}

-- `format!("{}_{}", name, i)`
unfoldable pub with_number : Str → ℕ → Str
with_number name i = name ++ (b'_' ∷ print_u64 i)

-- A signed number of 32 bits, as its bits; adding wraps around, as in a build without overflow checks.
abbrev pub add_i32 : ℕ → ℕ → ℕ
add_i32 i n = (i + n) % 2 ^ 32

abbrev pub print_i32 : ℕ → Str
print_i32 i = if ltb i (2 ^ 31) then print_u64 i else b'-' ∷ print_u64 (2 ^ 32 - i)

-- `format!("{}_{}", name, i)` for an `i32`
unfoldable pub with_i32 : Str → ℕ → Str
with_i32 name i = name ++ (b'_' ∷ print_i32 i)

pub with_i32-with_number : (name : Str) (i : ℕ) → i < 2 ^ 31 → with_i32 name i ≡ with_number name i
unfolding with_i32 with_number
with_i32-with_number name i small = let below : ltb i (2 ^ 31) ≡ true = ground arith in rw below

-- The names in their order
abbrev pub numbered : Str → ℕ → Str
numbered name zero = name
numbered name (suc i) = with_number name (i + 2)

pub with_number-ne : (name : Str) (i : ℕ) → with_number name i ≢ name
unfolding with_number
with_number-ne name i e =
    absurd (omega (arith, length-append name (b'_' ∷ print_u64 i), ap length e))

print_u64-injective : (i j : ℕ) → i < 2 ^ 64 → j < 2 ^ 64 → print_u64 i ≡ print_u64 j → i ≡ j
print_u64-injective i j hi hj e =
    cc (parse_u64-print_u64 i hi, parse_u64-print_u64 j hj, ap parse_u64 e)

pub with_number-injective :
    (name : Str) (i j : ℕ)
    → i < 2 ^ 64
    → j < 2 ^ 64
    → with_number name i ≡ with_number name j
    → i ≡ j
unfolding with_number
with_number-injective name i j hi hj e =
    print_u64-injective i j hi hj
      (cc (append_cancel_left name (b'_' ∷ print_u64 i) (b'_' ∷ print_u64 j) e))

pub numbered-injective :
    (name : Str) (i j : ℕ)
    → i + 1 < 2 ^ 64
    → j + 1 < 2 ^ 64
    → numbered name i ≡ numbered name j
    → i ≡ j
numbered-injective name zero zero hi hj e = refl
numbered-injective name zero (suc j) hi hj e = absurd (with_number-ne name (j + 2) (sym e))
numbered-injective name (suc i) zero hi hj e = absurd (with_number-ne name (i + 2) e)
numbered-injective name (suc i) (suc j) hi hj e =
    omega (arith, with_number-injective name (i + 2) (j + 2) (omega arith) (omega arith) e)
