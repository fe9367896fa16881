-- ===== src/Text/Trim.antt =====
-- What trimming leaves.
use saphir.Base.{
  ℕ, zero, suc, ◌≤◌, ◌≡◌, ◌≢◌, refl, ap, false, [], ◌∷◌, ◌++◌, none, arith, length, Option-cases,
  inl, inr, length-append,
}
use saphir.Text.{Str, strip_prefix, starts_with, trim_prefix_rounds, trim_start_matches}
use saphir.Text.Laws.{strip_prefix-eq-some}

trim_prefix_rounds_lem :
    (fuel : ℕ) (p s : Str)
    → p ≢ []
    → length s ≤ fuel
    → strip_prefix p (trim_prefix_rounds fuel p s) ≡ none
unfolding trim_prefix_rounds
trim_prefix_rounds_lem zero [] s n h = absurd (n refl)
trim_prefix_rounds_lem zero (x ∷ p) [] n h = unfold strip_prefix in refl
trim_prefix_rounds_lem zero (x ∷ p) (y ∷ s) n h = absurd (omega arith)
trim_prefix_rounds_lem (suc fuel) p s n h = elim (Option-cases (strip_prefix p s)) [
  | inl e ↦ rw (e, trim_prefix_rounds) e
  | inr (r, e) ↦
      rw (e, trim_prefix_rounds)
        (trim_prefix_rounds_lem fuel p r n (shorter p s r n h (strip_prefix-eq-some p s e)))
]
  where
    shorter : (p s r : Str) → p ≢ [] → length s ≤ suc fuel → s ≡ p ++ r → length r ≤ fuel
    shorter [] s r n h e = absurd (n refl)
    shorter (x ∷ p) s r n h e = omega (arith, ap length e, length-append p r)

-- What `trim_start_matches` returns no longer starts with the prefix: the rounds are enough.
pub trim_start_matches_lem : (p s : Str) → p ≢ [] → starts_with p (trim_start_matches p s) ≡ false
unfolding trim_start_matches starts_with
trim_start_matches_lem p s n = rw (trim_prefix_rounds_lem (length s) p s n (omega arith))
