-- ===== src/Openapi/Responses/Codes.antt =====
-- The codes of the responses that an attribute gives.
use saphir.Base.{
  ℕ, ◌≤◌, ◌<◌, ◌&&◌, leb, ltb, List, [], ◌∷◌, map, Option, none, some, All, All-append,
  Option-cases, Bool-cases, inl, inr, arith,
}
use saphir.Text.{Str, codes, str_eq}
use saphir.Openapi.Syn.{
  get_ident, Lit, str, int, other, path, list, name_value, NestedMetas, nil, meta, lit,
}
use saphir.Openapi.Responses.{Return, add_code, no_return, set_return, read_return, pairs_of}

abbrev pub IsStatus : ℕ → Type 0
IsStatus c = (100 ≤ c) × (c < 600)

add_code-IsStatus :
    (o : Option ℕ) (r : Return) → All IsStatus r.codes_of → All IsStatus (add_code o r).codes_of
add_code-IsStatus none r h = h
add_code-IsStatus (some c) r h = elim (Bool-cases (leb 100 c && ltb c 600)) [
  | inl inside ↦ rw inside (All-append IsStatus r.codes_of (c ∷ []) h (ground arith, tt))
  | inr outside ↦ rw outside h
]

map-IsStatus :
    (c : ℕ) (types : List Str)
    → IsStatus c
    → All (λ (p : ℕ × Str). IsStatus p.0) (map (λ t. (c, t)) types)
map-IsStatus c [] h = tt
map-IsStatus c (t ∷ types) h = (h, map-IsStatus c types h)

map_codes-IsStatus :
    (t : Str) (cs : List ℕ)
    → All IsStatus cs
    → All (λ (p : ℕ × Str). IsStatus p.0) (map (λ c. (c, t)) cs)
map_codes-IsStatus t [] h = tt
map_codes-IsStatus t (c ∷ cs) h = (h.0, map_codes-IsStatus t cs h.1)

pairs_of-IsStatus :
    (cs : List ℕ) (types : List Str)
    → All IsStatus cs
    → All (λ (p : ℕ × Str). IsStatus p.0) (pairs_of cs types)
unfolding pairs_of
pairs_of-IsStatus [] types h = tt
pairs_of-IsStatus (c ∷ []) types h = map-IsStatus c types h.0
pairs_of-IsStatus (c ∷ d ∷ cs) [] h = tt
pairs_of-IsStatus (c ∷ d ∷ cs) (t ∷ []) h = map_codes-IsStatus t (c ∷ d ∷ cs) h
pairs_of-IsStatus (c ∷ d ∷ cs) (_ ∷ _ ∷ _) h = tt

module _ (parse_u16 : Str → Option ℕ) where
  set_return-IsStatus :
      (field : Str) (value : Lit) (r : Return)
      → All IsStatus r.codes_of
      → All IsStatus (set_return parse_u16 field value r).codes_of
  unfolding set_return
  set_return-IsStatus field (int text) r h = elim (Bool-cases (str_eq field (codes "code"))) [
    | inl e ↦ rw (e, set_return) (add_code-IsStatus (parse_u16 text) r h)
    | inr e ↦ rw (e, set_return) h
  ]
  set_return-IsStatus field (str s) r h = elim (Bool-cases (str_eq field (codes "type"))) [
    | inl e ↦ rw (e, set_return) h
    | inr e ↦ elim (Bool-cases (str_eq field (codes "mime"))) [
      | inl f ↦ rw (e, f, set_return) h
      | inr f ↦ elim (Bool-cases (str_eq field (codes "name"))) [
        | inl g ↦ rw (e, f, g, set_return) h
        | inr g ↦ rw (e, f, g, set_return) h
      ]
    ]
  ]
  set_return-IsStatus field other r h = h

  read_return-IsStatus :
      (nested : NestedMetas) (r : Return)
      → All IsStatus r.codes_of
      → All IsStatus (read_return parse_u16 nested r).codes_of
  unfolding read_return
  read_return-IsStatus nil r h = h
  read_return-IsStatus (lit _ rest) r h = read_return-IsStatus rest r h
  read_return-IsStatus (meta (path _) rest) r h = read_return-IsStatus rest r h
  read_return-IsStatus (meta (list _ _) rest) r h = read_return-IsStatus rest r h
  read_return-IsStatus (meta (name_value p value) rest) r h = elim (Option-cases (get_ident p)) [
    | inl e ↦ rw (e, read_return) (read_return-IsStatus rest r h)
    | inr (field, e) ↦
        rw (e, read_return)
          (read_return-IsStatus rest (set_return parse_u16 field value r)
            (set_return-IsStatus field value r h))
  ]

  -- The responses that an attribute gives have a code from 100 to 599, whatever stands in it.
  pub pairs_of-read_return :
      (nested : NestedMetas)
      → All
          (λ (p : ℕ × Str). IsStatus p.0)
          (pairs_of
            (read_return parse_u16 nested no_return).codes_of
            (read_return parse_u16 nested no_return).types)
  pairs_of-read_return nested = pairs_of-IsStatus _ _ (read_return-IsStatus nested no_return tt)
