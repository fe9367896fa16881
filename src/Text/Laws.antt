-- ===== src/Text/Laws.antt =====
-- Equality, prefixes and containment of texts.
use mathlib.Core.List.{reverse-append, reverse-reverse}
use saphir.Base.{
  ℕ, ◌≡◌, refl, sym, ap, ◌∙◌, ◌↔◌, inl, inr, true, false, ◌||◌, [], ◌∷◌, ◌++◌, reverse, none, some,
  arith, ◌==◌, Bool-cases, Option-cases,
}
use saphir.Text.{Str, str_eq, strip_prefix, starts_with, ends_with, contains_char, split_once}
use saphir.Base.Dict.{Key}

pub str_eq_iff : (a b : Str) → (str_eq a b ≡ true) ↔ (a ≡ b)
unfolding str_eq
str_eq_iff (x ∷ a) (y ∷ b) = ground (arith, str_eq_iff a b)
str_eq_iff _ _ = ground arith

pub str_eq_refl : (a : Str) → str_eq a a ≡ true
str_eq_refl a = (str_eq_iff a a).1 refl

instance abbrev pub str_key : Key Str
str_key = record { beq = str_eq; beq_iff = str_eq_iff }

-- What `strip_prefix` returns is what follows the prefix, exactly.
pub strip_prefix-append : (p s : Str) → strip_prefix p (p ++ s) ≡ some s
unfolding strip_prefix
strip_prefix-append [] s = refl
strip_prefix-append (x ∷ p) s = ground (arith, strip_prefix-append p s)

pub strip_prefix-eq-some : (p s : Str) {r : Str} → strip_prefix p s ≡ some r → s ≡ p ++ r
unfolding strip_prefix
strip_prefix-eq-some [] s h = ground arith
strip_prefix-eq-some (x ∷ p) [] h = cc
strip_prefix-eq-some (x ∷ p) (y ∷ s) {r} h = ground (arith, strip_prefix-eq-some p s {r = r})

pub starts_with-append : (p s : Str) → starts_with p (p ++ s) ≡ true
unfolding starts_with
starts_with-append p s = rw strip_prefix-append

pub starts_with_lem : (p s : Str) → starts_with p s ≡ true → (r : Str) × (s ≡ p ++ r)
unfolding starts_with
starts_with_lem p s h = elim (Option-cases (strip_prefix p s)) [
  | inl e ↦ absurd (cc (rw e at h))
  | inr (r, e) ↦ (r, strip_prefix-eq-some p s e)
]

pub ends_with-append : (p s : Str) → ends_with p (s ++ p) ≡ true
unfolding ends_with
ends_with-append p s = rw reverse-append (starts_with-append (reverse p) (reverse s))

pub ends_with_lem : (p s : Str) → ends_with p s ≡ true → (r : Str) × (s ≡ r ++ p)
unfolding ends_with
ends_with_lem p s h =
    let (r, e) = starts_with_lem (reverse p) (reverse s) h in
    (
      reverse r,
      sym (reverse-reverse s)
          ∙ ap reverse e
          ∙ reverse-append (reverse p) r
          ∙ ap (λ t. reverse r ++ t) (reverse-reverse p),
    )

pub contains_char-append :
    (c : ℕ) (a b : Str) → contains_char c (a ++ b) ≡ (contains_char c a || contains_char c b)
unfolding contains_char
contains_char-append c [] b = refl
contains_char-append c (x ∷ a) b = ground (arith, contains_char-append c a b)

-- The two parts are what stands around the first separator.
pub split_once-eq-some :
    (c : ℕ) (s : Str) {a b : Str}
    → split_once c s ≡ some (a, b)
    → (s ≡ a ++ c ∷ b) × (contains_char c a ≡ false)
unfolding split_once contains_char
split_once-eq-some c [] h = cc
split_once-eq-some c (x ∷ s) {a} {b} h = elim (Bool-cases (x == c)) [
  | inl e ↦ ground arith
  | inr e ↦ elim (Option-cases (split_once c s)) [
    | inl n ↦ absurd (cc (rw (e, n) at h))
    | inr ((a', b'), n) ↦ let (q, k) = split_once-eq-some c s n in ground arith
  ]
]

pub split_once-append :
    (c : ℕ) (a b : Str) → contains_char c a ≡ false → split_once c (a ++ c ∷ b) ≡ some (a, b)
unfolding split_once contains_char
split_once-append c [] b h = ground arith
split_once-append c (x ∷ a) b h = ground (arith, split_once-append c a b)

pub split_once-eq-none : (c : ℕ) (s : Str) → contains_char c s ≡ false → split_once c s ≡ none
unfolding split_once contains_char
split_once-eq-none c [] h = refl
split_once-eq-none c (x ∷ s) h = ground (arith, split_once-eq-none c s)
