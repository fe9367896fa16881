-- ===== src/File/Site/Checked.antt =====
-- What `path_is_under_base_path` decides, and what it says of the paths that `file_path_from_path` gives.
use saphir.Base.{
  ◌≡◌, refl, sym, ap, ◌∙◌, true, false, List, [], ◌∷◌, ◌++◌, Option, none, some, is_empty, All,
  Bool-cases, Option-cases, inl, inr, arith, ◌↔◌,
}
use mathlib.Core.Path.{subst}
use saphir.Text.{Str, str_eq, split, contains_char, starts_with, strip_prefix}
use saphir.Text.Laws.{str_eq_iff}
use saphir.Text.Split.{join, Free, split-Free}
use saphir.File.Site.{
  Disk, Site, at, is_part, parts, relative_parts, is_absolute, components, after_base,
  path_starts_with, join_path, skip_byte, file_path_from_path, path_is_under_base_path,
}
use saphir.File.Site.Under.{starts_with-rest, path_starts_with-join_path}

-- The component of a relative path
abbrev Plain : Str → Type 0
Plain w = Free 47 w × (is_empty w ≡ false)

parts-Plain : (ws : List Str) → All (Free 47) ws → All Plain (parts ws)
unfolding parts
parts-Plain [] h = tt
parts-Plain (w ∷ ws) h = elim (Bool-cases (is_part w)) [
  | inl e ↦ rw (e, parts) ((h.0, ground arith), parts-Plain ws h.1)
  | inr e ↦ rw (e, parts) (parts-Plain ws h.1)
]

relative_parts-Plain : (ws : List Str) → All (Free 47) ws → All Plain (relative_parts ws)
unfolding relative_parts
relative_parts-Plain [] h = tt
relative_parts-Plain (w ∷ ws) h = elim (Bool-cases (is_empty w)) [
  | inl e ↦ rw (e, relative_parts) (parts-Plain ws h.1)
  | inr e ↦ rw (e, relative_parts) ((h.0, e), parts-Plain ws h.1)
]

components-Plain : (path : Str) → is_absolute path ≡ false → All Plain (components path)
unfolding components
components-Plain path e =
    rw (e, components) (relative_parts-Plain (split 47 path) (split-Free 47 path))

-- What comes after a base is the rest of the components.
after_base-some :
    (base path : List Str) {rest : List Str}
    → after_base base path ≡ some rest
    → path ≡ base ++ rest
unfolding after_base
after_base-some [] path e = cc
after_base-some (b ∷ base) [] e = absurd cc
after_base-some (b ∷ base) (c ∷ path) {rest} e = elim (Bool-cases (str_eq b c)) [
  | inl same ↦
      let later : after_base base path ≡ some rest = rw same at e in
      ap (λ x. x ∷ path) (sym ((str_eq_iff b c).0 same))
      ∙ ap (λ x. b ∷ x) (after_base-some base path later)
  | inr other ↦ let no : none ≡ some rest = rw other at e in absurd cc
]

All-rest : (base rest : List Str) → All Plain (base ++ rest) → All Plain rest
All-rest [] rest h = h
All-rest (b ∷ base) rest h = All-rest base rest h.1

join-relative : (ws : List Str) → All Plain ws → is_absolute (join 47 ws) ≡ false
unfolding join starts_with strip_prefix contains_char
join-relative [] h = refl
join-relative ([] ∷ ws) h = absurd cc
join-relative ((x ∷ w) ∷ []) h = ground arith
join-relative ((x ∷ w) ∷ v ∷ ws) h = ground arith

module _ (disk : Disk) (site : Site) where
  -- The check decides whether the components of a path start with those of the directory.
  path_is_under_base_path_iff :
      (path : Str)
      → (path_is_under_base_path disk site path ≡ true)
        ↔ ((rest : List Str) × (components path ≡ components site.www_path ++ rest))
  unfolding path_is_under_base_path path_starts_with
  path_is_under_base_path_iff path = (
    λ e. elim (Option-cases (after_base (components site.www_path) (components path))) [
      | inl n ↦ let no : false ≡ true = rw n at e in absurd cc
      | inr (rest, s) ↦ (rest, after_base-some (components site.www_path) (components path) s)
    ],
    λ (rest, e). starts_with-rest site.www_path path rest e,
  )

  -- The check lets a path through exactly if its components start with those of the directory, and so it
  -- lets through every path that is made of a request whose decoded path has no slash in front, whatever
  -- `..` is in it.
  pub path_is_under_base_path-file_path :
      (path encoded decoded file other : Str)
      → skip_byte path ≡ some encoded
      → disk.percent_decode encoded ≡ some decoded
      → is_absolute decoded ≡ false
      → file_path_from_path disk site path ≡ at file
      → ((path_is_under_base_path disk site other ≡ true)
          ↔ ((rest : List Str) × (components other ≡ components site.www_path ++ rest)))
        × (path_is_under_base_path disk site file ≡ true)
  unfolding file_path_from_path path_is_under_base_path
  path_is_under_base_path-file_path path encoded decoded file other s d relative e =
      (path_is_under_base_path_iff other, under)
    where
      from_rest :
          (o : Option (List Str))
          → after_base (components site.base_path) (components decoded) ≡ o
          → (elim o [
            | some rest ↦ at (join_path site.www_path (join 47 rest))
            | none ↦ at (join_path site.www_path decoded)
          ])
            ≡ at file
          → path_starts_with file site.www_path ≡ true
      from_rest none a e =
          let same : join_path site.www_path decoded ≡ file = cc in
          subst (λ f. path_starts_with f site.www_path ≡ true) same
            (path_starts_with-join_path site.www_path decoded relative)
      from_rest (some rest) a e =
          let same : join_path site.www_path (join 47 rest) ≡ file = cc in
          subst (λ f. path_starts_with f site.www_path ≡ true) same
            (path_starts_with-join_path site.www_path (join 47 rest) (
              join-relative rest (
                All-rest (components site.base_path) rest (
                  subst (All Plain)
                    (after_base-some (components site.base_path) (components decoded) a)
                    (components-Plain decoded relative)))))

      under : path_is_under_base_path disk site file ≡ true
      under =
          from_rest (after_base (components site.base_path) (components decoded)) refl
            (sym (rw (s, d, file_path_from_path) refl) ∙ e)
