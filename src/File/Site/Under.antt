-- ===== src/File/Site/Under.antt =====
-- What the test of `path_is_under_base_path` lets through.
use saphir.Base.{
  ℕ, ◌≡◌, ◌≢◌, refl, sym, ap, ◌∙◌, true, false, List, [], ◌∷◌, ◌++◌, some, if◌then◌else◌, is_empty,
  Bool-cases, inl, inr, arith,
}
use mathlib.Core.Path.{subst}
use mathlib.Core.List.{append_assoc, append-nil}
use saphir.Text.{Str, codes, split, push_front, starts_with, strip_prefix, ends_with}
use saphir.Text.Laws.{str_eq_refl, ends_with_lem}
use saphir.Text.Split.{split-ne-nil}
use saphir.File.Site.{
  is_part, parts, relative_parts, is_absolute, components, after_base, path_starts_with, join_path,
}

push_front-append :
    (x : ℕ) (ws vs : List Str) → ws ≢ [] → push_front x (ws ++ vs) ≡ push_front x ws ++ vs
unfolding push_front
push_front-append x [] vs h = absurd (h refl)
push_front-append x (w ∷ ws) vs h = refl

split-append : (c : ℕ) (a b : Str) → split c (a ++ (c ∷ b)) ≡ split c a ++ split c b
unfolding split
split-append c [] b = ground arith
split-append c (x ∷ a) b =
    ground
      (arith, split-append c a b, push_front-append x (split c a) (split c b) (split-ne-nil c a))

parts-append : (ws vs : List Str) → parts (ws ++ vs) ≡ parts ws ++ parts vs
unfolding parts
parts-append [] vs = refl
parts-append (w ∷ ws) vs = elim (Bool-cases (is_part w)) [
  | inl e ↦ rw (e, parts-append ws vs) refl
  | inr e ↦ rw (e, parts-append ws vs) refl
]

relative_parts-append :
    (ws vs : List Str) → ws ≢ [] → relative_parts (ws ++ vs) ≡ relative_parts ws ++ parts vs
unfolding relative_parts
relative_parts-append [] vs h = absurd (h refl)
relative_parts-append (w ∷ ws) vs h = elim (Bool-cases (is_empty w)) [
  | inl e ↦ rw (e, parts-append ws vs) refl
  | inr e ↦ rw (e, parts-append ws vs) refl
]

after_base-append : (base rest : List Str) → after_base base (base ++ rest) ≡ some rest
unfolding after_base
after_base-append [] rest = refl
after_base-append (b ∷ base) rest = rw (str_eq_refl b, after_base-append base rest) refl

same_start : (x : ℕ) (s t : Str) → is_absolute (x ∷ s) ≡ is_absolute (x ∷ t)
unfolding starts_with strip_prefix
same_start x s t = ground arith

-- The components of a path that goes on after a slash
components-append :
    (base path : Str)
    → base ≢ []
    → components (base ++ (47 ∷ path)) ≡ components base ++ parts (split 47 path)
unfolding components
components-append [] path h = absurd (h refl)
components-append (x ∷ base) path h = elim (Bool-cases (is_absolute (x ∷ base))) [
  | inl e ↦
      let e' : is_absolute (x ∷ (base ++ (47 ∷ path))) ≡ true =
        same_start x (base ++ (47 ∷ path)) base ∙ e in
      rw
        (e, e', split-append 47 (x ∷ base) path, parts-append (split 47 (x ∷ base)) (split 47 path))
        refl
  | inr e ↦
      let e' : is_absolute (x ∷ (base ++ (47 ∷ path))) ≡ false =
        same_start x (base ++ (47 ∷ path)) base ∙ e in
      rw
        (
          e,
          e',
          split-append 47 (x ∷ base) path,
          relative_parts-append (split 47 (x ∷ base)) (split 47 path) (split-ne-nil 47 (x ∷ base)),
        )
        refl
]

slash-append : (path : Str) → components (47 ∷ path) ≡ (47 ∷ []) ∷ parts (split 47 path)
unfolding components starts_with strip_prefix split parts
slash-append path = refl

-- A prefix of the components is a base.
pub starts_with-rest :
    (base path : Str) (rest : List Str)
    → components path ≡ components base ++ rest
    → path_starts_with path base ≡ true
unfolding path_starts_with
starts_with-rest base path rest e = rw (e, after_base-append (components base) rest) refl

no_components : components [] ≡ []
unfolding components starts_with strip_prefix split relative_parts parts
no_components = refl

-- A base that ends with a slash
slash_base : (r path : Str) → path_starts_with ((r ++ (47 ∷ [])) ++ path) (r ++ (47 ∷ [])) ≡ true
unfolding parts split
slash_base [] path =
    starts_with-rest (47 ∷ []) (47 ∷ path) (parts (split 47 path))
      (slash-append path ∙ ap (λ c. c ++ parts (split 47 path)) (sym (slash-append [] ∙ alone)))
  where
    alone : (47 ∷ []) ∷ parts (split 47 []) ≡ (47 ∷ []) ∷ []
    alone = refl
slash_base (x ∷ r) path =
    starts_with-rest ((x ∷ r) ++ (47 ∷ [])) (((x ∷ r) ++ (47 ∷ [])) ++ path) (parts (split 47 path))
      (ap components (append_assoc (x ∷ r) (47 ∷ []) path)
        ∙ (components-append (x ∷ r) path (λ k. absurd cc)
            ∙ ap (λ c. c ++ parts (split 47 path))
                (sym (
                  components-append (x ∷ r) [] (λ k. absurd cc)
                  ∙ append-nil (components (x ∷ r))))))

-- Whatever relative path is joined to a base, the result starts with the components of the base: the test
-- refuses no `..` in it.
pub path_starts_with-join_path :
    (base path : Str)
    → is_absolute path ≡ false
    → path_starts_with (join_path base path) base ≡ true
unfolding join_path
path_starts_with-join_path [] path h =
    starts_with-rest [] (if is_absolute path then path else path)
      (components (if is_absolute path then path else path))
      (ap (λ c. c ++ components (if is_absolute path then path else path)) (sym no_components))
path_starts_with-join_path (x ∷ base) path h =
    elim (Bool-cases (ends_with (codes "/") (x ∷ base))) [
      | inr e ↦
          rw (h, e)
            (starts_with-rest (x ∷ base) ((x ∷ base) ++ (47 ∷ path)) (parts (split 47 path))
              (components-append (x ∷ base) path (λ k. absurd cc)))
      | inl e ↦
          let (r, same) = ends_with_lem (codes "/") (x ∷ base) e in
          rw (h, e)
            (subst (λ b. path_starts_with (b ++ path) b ≡ true) (sym same) (slash_base r path))
    ]
