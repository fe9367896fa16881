-- ===== src/Openapi/Operations/Fresh.antt =====
-- The loop for an operation's id ends, with an id that is not in use.
use saphir.Base.{
  ℕ, zero, suc, ◌+◌, ◌≤◌, ◌<◌, ◌^◌, ◌≡◌, ◌≢◌, refl, sym, ◌∙◌, true, false, List, [], ◌∷◌, some,
  if◌then◌else◌, length, Bool-cases, inl, inr, arith,
}
use saphir.Text.{Str, str_eq}
use saphir.Text.Laws.{str_eq_iff}
use saphir.Openapi.Names.{with_i32-with_number, add_i32, numbered, numbered-injective}
use saphir.Openapi.Operations.{contains_id, next_id, operation_id_from_sig}

-- One occurrence of an id taken out
unfoldable remove_id : Str → List Str → List Str
remove_id id [] = []
remove_id id (x ∷ ids) = let rest = x ∷ remove_id id ids in if str_eq x id then ids else rest

length-remove_id :
    (id : Str) (ids : List Str)
    → contains_id id ids ≡ true
    → length (remove_id id ids) + 1 ≡ length ids
unfolding contains_id remove_id
length-remove_id id [] h = cc
length-remove_id id (x ∷ ids) h = ground (arith, length-remove_id id ids)

contains_id-remove_id :
    (id other : Str) (ids : List Str)
    → id ≢ other
    → contains_id other (remove_id id ids) ≡ contains_id other ids
unfolding contains_id remove_id
contains_id-remove_id id other [] ne = refl
contains_id-remove_id id other (x ∷ ids) ne =
    ground (arith, contains_id-remove_id id other ids ne, str_eq_iff x id, str_eq_iff x other)

-- The loop asks for the names from the `k`-th on, and for nothing else of the ids.
next_id-agrees :
    (fuel : ℕ) (name : Str) (k : ℕ) (a b : List Str)
    → k + fuel + 2 < 2 ^ 31
    → ((j : ℕ)
        → k ≤ j
        → j < k + fuel
        → contains_id (numbered name j) a ≡ contains_id (numbered name j) b)
    → next_id fuel name (numbered name k) (k + 2) a ≡ next_id fuel name (numbered name k) (k + 2) b
unfolding next_id
next_id-agrees zero name k a b small same = refl
next_id-agrees (suc fuel) name k a b small same =
    let next = with_i32-with_number name (k + 2) (omega arith) in
    let i : add_i32 (k + 2) 1 ≡ suc k + 2 = omega arith in
    rw (
      i,
      next,
      same k (omega arith) (omega arith),
      next_id-agrees fuel name (suc k) a b (omega arith)
          (λ j p q. same j (omega arith) (omega arith)),
    )

-- More rounds than there are ids find one that is not in use.
next_id-fresh :
    (fuel : ℕ) (name : Str) (k : ℕ) (ids : List Str)
    → length ids < fuel
    → k + fuel + 2 < 2 ^ 31
    → (j : ℕ) × (k ≤ j)
      × (j < k + fuel)
      × (next_id fuel name (numbered name k) (k + 2) ids ≡ some (numbered name j))
      × (contains_id (numbered name j) ids ≡ false)
unfolding next_id
next_id-fresh zero name k ids enough small = absurd (omega arith)
next_id-fresh (suc fuel) name k ids enough small =
    elim (Bool-cases (contains_id (numbered name k) ids)) [
      | inr free ↦ (k, omega arith, omega arith, rw free, free)
      | inl taken ↦
          let shorter = length-remove_id (numbered name k) ids taken in
          let other : (j : ℕ)
              → suc k ≤ j
              → j < suc k + fuel
              → contains_id (numbered name j) (remove_id (numbered name k) ids)
                ≡ contains_id (numbered name j) ids =
            λ j p q. contains_id-remove_id (numbered name k) (numbered name j) ids (λ e.
              absurd (omega (arith, numbered-injective name k j (omega arith) (omega arith) e))) in
          let (j, above, below, found, free) =
            next_id-fresh fuel name (suc k) (remove_id (numbered name k) ids)
              (omega (arith, shorter)) (omega arith) in
          let next = with_i32-with_number name (k + 2) (omega arith) in
          let i : add_i32 (k + 2) 1 ≡ suc k + 2 = omega arith in
          (
            j,
            omega arith,
            omega arith,
            rw (taken, i, next)
                (sym (next_id-agrees fuel name (suc k) _ ids (omega arith) other) ∙ found),
            sym (other j above (omega arith)) ∙ free,
          )
    ]

pub operation_id_from_sig-fresh :
    (name : Str) (ids : List Str)
    → length ids + 3 < 2 ^ 31
    → (id : Str) × (operation_id_from_sig name ids ≡ some (id, id ∷ ids))
      × (contains_id id ids ≡ false)
unfolding operation_id_from_sig
operation_id_from_sig-fresh name ids small =
    let (j, above, below, found, free) =
      next_id-fresh (suc (length ids)) name 0 ids (omega arith) (omega arith) in
    (numbered name j, rw (found, operation_id_from_sig), free)

-- No id stands twice.
abbrev pub Distinct : List Str → Type 0
Distinct [] = Unit
Distinct (id ∷ ids) = (contains_id id ids ≡ false) × Distinct ids
