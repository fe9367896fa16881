-- ===== src/Openapi/Schemas/Numbering.antt =====
-- The names of the components of one name are `name`, `name_2`, `name_3` and so on, in the order of their paths.
use saphir.Base.{
  ℕ, suc, ◌+◌, ◌≤◌, ◌<◌, ◌^◌, ◌≡◌, refl, sym, ap, ◌∙◌, List, [], ◌∷◌, Option, none, some, length,
  Bool-cases, inl, inr, arith,
}
use saphir.Base.Dict.{get, insert}
use saphir.Text.{Str}
use saphir.Openapi.Names.{numbered, numbered-injective}
use saphir.Openapi.Schemas.{path_key, path_beq, path_beq_iff}

abbrev pub Paths : Type 0
Paths = List (Option Str × Str)

-- The `i`-th entry has the `i`-th name.
abbrev pub Numbered : Str → ℕ → Paths → Type 0
Numbered name i [] = Unit
Numbered name i ((p, r) ∷ paths) = (r ≡ numbered name i) × Numbered name (suc i) paths

get-Numbered :
    (name : Str) (i : ℕ) (p : Option Str) (paths : Paths) {r : Str}
    → Numbered name i paths
    → get p paths ≡ some r
    → (j : ℕ) × (i ≤ j) × (j < i + length paths) × (r ≡ numbered name j)
unfolding get
get-Numbered name i p [] n e = cc
get-Numbered name i p ((q, s) ∷ paths) n e = elim (Bool-cases (path_beq q p)) [
  | inl same ↦ (i, omega arith, omega arith, ground (arith, n.0))
  | inr other ↦
      let (j, above, below, named) = get-Numbered name (suc i) p paths n.1 (rw other at e) in
      (j, omega arith, omega arith, named)
]

-- Two paths that have one name are one path.
pub get-injective :
    (name : Str) (i : ℕ) (p q : Option Str) (paths : Paths) {r : Str}
    → i + length paths < 2 ^ 64
    → Numbered name i paths
    → get p paths ≡ some r
    → get q paths ≡ some r
    → p ≡ q
unfolding get
get-injective name i p q [] small n e f = cc
get-injective name i p q ((t, s) ∷ paths) {r} small n e f = elim (Bool-cases (path_beq t p)) [
  | inl at_p ↦ elim (Bool-cases (path_beq t q)) [
    | inl at_q ↦ sym ((path_beq_iff t p).0 at_p) ∙ (path_beq_iff t q).0 at_q
    | inr other_q ↦ absurd (not_later q (rw at_p at e) (rw other_q at f))
  ]
  | inr other_p ↦ elim (Bool-cases (path_beq t q)) [
    | inl at_q ↦ absurd (not_later p (rw at_q at f) (rw other_p at e))
    | inr other_q ↦
        get-injective name (suc i) p q paths (omega arith) n.1 (rw other_p at e) (rw other_q at f)
  ]
]
  where
    not_later : (o : Option Str) → some s ≡ some r → get o paths ≡ some r → ⊥
    not_later o first later =
        let (j, above, below, named) = get-Numbered name (suc i) o paths n.1 later in
        absurd (
          omega (
            arith,
            numbered-injective name i j (omega arith) (omega arith) (cc (n.0, named, first)),
          ))

-- The next name is not in use, and goes to the end.
pub insert-Numbered :
    (name : Str) (i : ℕ) (p : Option Str) (r : Str) (paths : Paths)
    → r ≡ numbered name (i + length paths)
    → Numbered name i paths
    → get p paths ≡ none
    → Numbered name i (insert p r paths) × (length (insert p r paths) ≡ suc (length paths))
unfolding get insert
insert-Numbered name i p r [] next n e =
    let here : i + 0 ≡ i = omega arith in ((next ∙ ap (numbered name) here, tt), refl)
insert-Numbered name i p r ((q, s) ∷ paths) next n e = elim (Bool-cases (path_beq q p)) [
  | inl same ↦ absurd (found (rw same at e))
  | inr other ↦
      let later : i + suc (length paths) ≡ suc i + length paths = omega arith in
      let rest =
        insert-Numbered name (suc i) p r paths (next ∙ ap (numbered name) later) n.1
          (rw other at e) in
      rw other ((n.0, rest.0), ap suc rest.1)
]
  where
    found : some s ≡ none → ⊥
    found h = cc
