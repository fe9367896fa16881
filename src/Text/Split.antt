-- ===== src/Text/Split.antt =====
-- `split` cuts a text at every separator, and joining the parts gives the text back.
use saphir.Base.{
  ℕ, ◌≡◌, refl, ap, ◌∙◌, ◌≢◌, false, List, [], ◌∷◌, ◌++◌, arith, ◌==◌, All, Bool-cases, inl, inr,
}
use saphir.Text.{Str, contains_char, push_front, split}

-- The parts with the separator between them.
unfoldable pub join : ℕ → List Str → Str
join c [] = []
join c (w ∷ []) = w
join c (w ∷ v ∷ ws) = w ++ c ∷ join c (v ∷ ws)

abbrev pub Free : ℕ → Str → Type 0
Free c w = contains_char c w ≡ false

pub split-ne-nil : (c : ℕ) (s : Str) → split c s ≢ []
unfolding split
split-ne-nil c [] = cc
split-ne-nil c (x ∷ s) = ground arith

join-push_front : (c x : ℕ) (ws : List Str) → ws ≢ [] → join c (push_front x ws) ≡ x ∷ join c ws
unfolding join push_front
join-push_front c x [] h = absurd (h refl)
join-push_front c x (w ∷ []) h = refl
join-push_front c x (w ∷ v ∷ ws) h = refl

join-cons_nil : (c : ℕ) (ws : List Str) → ws ≢ [] → join c ([] ∷ ws) ≡ c ∷ join c ws
unfolding join
join-cons_nil c [] h = absurd (h refl)
join-cons_nil c (w ∷ ws) h = refl

-- Joining what `split` returns gives the text back.
pub join-split : (c : ℕ) (s : Str) → join c (split c s) ≡ s
unfolding split
join-split c [] = unfold join in refl
join-split c (x ∷ s) = elim (Bool-cases (x == c)) [
  | inl e ↦ rw (e, join-cons_nil c (split c s) (split-ne-nil c s)) (ground (arith, join-split c s))
  | inr e ↦
      rw (e, join-push_front c x (split c s) (split-ne-nil c s)) (ap (λ t. x ∷ t) (join-split c s))
]

push_front-Free :
    (c x : ℕ) (ws : List Str) → (x == c) ≡ false → All (Free c) ws → All (Free c) (push_front x ws)
unfolding push_front contains_char
push_front-Free c x [] e h = ground arith
push_front-Free c x (w ∷ ws) e h = (ground arith, h.1)

-- No part holds the separator.
pub split-Free : (c : ℕ) (s : Str) → All (Free c) (split c s)
unfolding split contains_char
split-Free c [] = (refl, tt)
split-Free c (x ∷ s) = elim (Bool-cases (x == c)) [
  | inl e ↦ rw e (refl, split-Free c s)
  | inr e ↦ rw e (push_front-Free c x (split c s) e (split-Free c s))
]

split_of_Free : (c : ℕ) (w : Str) → Free c w → split c w ≡ w ∷ []
unfolding split push_front contains_char
split_of_Free c [] h = refl
split_of_Free c (x ∷ w) h = ground (arith, split_of_Free c w)

split-append : (c : ℕ) (w s : Str) → Free c w → split c (w ++ c ∷ s) ≡ w ∷ split c s
unfolding split push_front contains_char
split-append c [] s h = ground arith
split-append c (x ∷ w) s h = ground (arith, split-append c w s)

-- Splitting a text that was joined from parts free of the separator gives the parts back.
pub split-join : (c : ℕ) (ws : List Str) → ws ≢ [] → All (Free c) ws → split c (join c ws) ≡ ws
unfolding join
split-join c [] n h = absurd (n refl)
split-join c (w ∷ []) n h = split_of_Free c w h.0
split-join c (w ∷ v ∷ ws) n h =
    split-append c w _ h.0 ∙ ap (λ t. w ∷ t) (split-join c (v ∷ ws) (λ e. cc) h.1)
