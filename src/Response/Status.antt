-- ===== src/Response/Status.antt =====
-- The status that a builder has chosen, and its flag.
use saphir.Base.{
  ℕ, ◌≡◌, refl, sym, ap, ◌∙◌, Bool, true, false, List, [], ◌∷◌, ◌++◌, Option, none, some,
  if◌then◌else◌, is_some, or_else, Bool-cases, Option-cases, inl, inr,
}
use mathlib.Core.Path.{subst}
use saphir.Text.{Str, codes}
use saphir.Response.{
  Builder, RawCall, set_status, set_version, append_header, insert_header, add_extension, status,
  status_if_not_set, header, content_type_if_not_set, call,
}

-- The last status that the raw builder was called with
abbrev pub chosen : {Ext : Type 0} → List (RawCall Ext) → Option ℕ
chosen [] = none
chosen (set_status code ∷ calls) = or_else (chosen calls) (some code)
chosen (set_version v ∷ calls) = chosen calls
chosen (append_header k v ∷ calls) = chosen calls
chosen (insert_header k v ∷ calls) = chosen calls
chosen (add_extension e ∷ calls) = chosen calls

or_else_assoc : {A : Type 0} (a b c : Option A) → or_else a (or_else b c) ≡ or_else (or_else a b) c
or_else_assoc none b c = refl
or_else_assoc (some a) b c = refl

or_else-none : {A : Type 0} (a : Option A) → or_else a none ≡ a
or_else-none none = refl
or_else-none (some a) = refl

module _ {Ext : Type 0} where
  pub chosen-append : (a b : List (RawCall Ext)) → chosen (a ++ b) ≡ or_else (chosen b) (chosen a)
  chosen-append [] b = sym (or_else-none (chosen b))
  chosen-append (set_status code ∷ a) b =
      rw (chosen-append a b) (sym (or_else_assoc (chosen b) (chosen a) (some code)))
  chosen-append (set_version v ∷ a) b = chosen-append a b
  chosen-append (append_header k v ∷ a) b = chosen-append a b
  chosen-append (insert_header k v ∷ a) b = chosen-append a b
  chosen-append (add_extension e ∷ a) b = chosen-append a b

module _ {Ext Jar Content : Type 0} where
  -- The flag tells whether a status was chosen.
  abbrev pub IsTracked : Builder Ext Jar Content → Type 0
  IsTracked b = b.status_set ≡ is_some (chosen b.inner)

  pub status-chosen :
      (code : ℕ) (b : Builder Ext Jar Content) → chosen (status code b).inner ≡ some code
  unfolding status
  status-chosen code b = chosen-append b.inner (set_status code ∷ [])

  kept :
      (code : ℕ) (b : Builder Ext Jar Content) → b.status_set ≡ true → status_if_not_set code b ≡ b
  unfolding status_if_not_set
  kept code b e = ap (λ x. if x then b else status code b) e

  defaulted :
      (code : ℕ) (b : Builder Ext Jar Content)
      → b.status_set ≡ false
      → status_if_not_set code b ≡ status code b
  unfolding status_if_not_set
  defaulted code b e = ap (λ x. if x then b else status code b) e

  -- The default is chosen exactly where nothing was before.
  pub status_if_not_set-chosen :
      (code : ℕ) (b : Builder Ext Jar Content)
      → IsTracked b
      → chosen (status_if_not_set code b).inner ≡ or_else (chosen b.inner) (some code)
  status_if_not_set-chosen code b tracked = elim (Option-cases (chosen b.inner)) [
    | inl nothing ↦
        ap (λ x. chosen x.inner) (defaulted code b (tracked ∙ ap is_some nothing))
        ∙ (status-chosen code b ∙ sym (ap (λ o. or_else o (some code)) nothing))
    | inr (old, e) ↦
        ap (λ x. chosen x.inner) (kept code b (tracked ∙ ap is_some e))
        ∙ (e ∙ sym (ap (λ o. or_else o (some code)) e))
  ]

  -- The operations keep the flag true to the calls.
  pub status-IsTracked : (code : ℕ) (b : Builder Ext Jar Content) → IsTracked (status code b)
  unfolding status
  status-IsTracked code b = sym (ap is_some (chosen-append b.inner (set_status code ∷ [])))

  pub status_if_not_set-IsTracked :
      (code : ℕ) (b : Builder Ext Jar Content) → IsTracked b → IsTracked (status_if_not_set code b)
  status_if_not_set-IsTracked code b tracked = elim (Bool-cases b.status_set) [
    | inl e ↦ subst IsTracked (sym (kept code b e)) tracked
    | inr e ↦ subst IsTracked (sym (defaulted code b e)) (status-IsTracked code b)
  ]

  pub header-IsTracked :
      (key value : Str) (b : Builder Ext Jar Content) → IsTracked b → IsTracked (header key value b)
  unfolding header
  header-IsTracked key value b tracked =
      tracked ∙ sym (ap is_some (chosen-append b.inner (append_header key value ∷ [])))

  pub content_type_if_not_set-IsTracked :
      (has_header : List (RawCall Ext) → Str → Option Bool) (from_str : Str → Option Str)
      (content_type : Str) (b : Builder Ext Jar Content)
      → IsTracked b
      → IsTracked (content_type_if_not_set has_header from_str content_type b)
  unfolding content_type_if_not_set
  content_type_if_not_set-IsTracked has_header from_str content_type b tracked =
      from_header (has_header b.inner (codes "content-type")) (from_str content_type)
    where
      from_header :
          (found : Option Bool) (value : Option Str)
          → IsTracked (elim found [
            | none ↦ b
            | some true ↦ b
            | some false ↦ elim value [
              | none ↦ b
              | some v ↦ call (insert_header (codes "content-type") v) b
            ]
          ])
      from_header none value = tracked
      from_header (some true) value = tracked
      from_header (some false) none = tracked
      from_header (some false) (some v) =
          tracked
          ∙ sym (ap is_some (chosen-append b.inner (insert_header (codes "content-type") v ∷ [])))
