-- ===== src/Router/Resolve.antt =====
-- What the resolution of a request finds, and what the dispatch then runs.
use saphir.Base.{
  ℕ, ◌≡◌, ◌⊎◌, inl, inr, refl, Bool, true, false, List, [], ◌∷◌, Option, none, some, if◌then◌else◌,
  any as any_of, ◌||◌, Result, ok, err, arith,
}
use saphir.Text.{Str}
use saphir.Text.Laws.{str_key}
use saphir.Path.{PathMatcher, simple, wild, CaptureMap}
use saphir.Path.Match.{match_all_and_capture}
use saphir.Http.{Method, HandlerMetadata, Request}
use saphir.Endpoint.{
  Endpoint, Resolved, invalid_path, method_not_allowed, matched, resolve, resolve_method,
}
use saphir.Router.{resolve_from}

pub Resolved-cases :
    (r : Resolved)
    → (r ≡ invalid_path) ⊎ (r ≡ method_not_allowed) ⊎ ((m : HandlerMetadata) × (r ≡ matched m))
Resolved-cases invalid_path = inl refl
Resolved-cases method_not_allowed = inr (inl refl)
Resolved-cases (matched m) = inr (inr (m, refl))

accepted_any_captures :
    {R : Type 0} (is_match : R → Str → Bool) (m : PathMatcher R) (path : Str)
    (captures others : CaptureMap)
    → (match_all_and_capture is_match m path captures).0
      ≡ (match_all_and_capture is_match m path others).0
unfolding match_all_and_capture
accepted_any_captures is_match (simple inner) path captures others = ground arith
accepted_any_captures is_match (wild start finish name) path captures others = ground arith

module _ {R : Type 0} (is_match : R → Str → Bool) where
  resolve-keeps :
      (er : Endpoint R) (req : Request)
      → ((resolve is_match er req).1.method ≡ req.method)
        × ((resolve is_match er req).1.path ≡ req.path)
  unfolding resolve
  resolve-keeps er req = ground arith

  -- Whether an endpoint's path fits a request.
  abbrev pub fits_path : Str → Endpoint R → Bool
  fits_path path er = (match_all_and_capture is_match er.path_matcher path []).0

  -- What an endpoint says of a request, without the captures.
  abbrev pub answer : Method → Str → Endpoint R → Resolved
  answer method path er =
      if fits_path path er then resolve_method er.methods method else invalid_path

  resolve-answer :
      (er : Endpoint R) (req : Request)
      → (resolve is_match er req).0 ≡ answer req.method req.path er
  unfolding resolve
  resolve-answer er req =
      ground (arith, accepted_any_captures is_match er.path_matcher req.path req.captures [])

  -- The answers of all endpoints, the first match of them, and whether a method was not allowed.
  abbrev pub first_match : Method → Str → List (Endpoint R) → Option (Endpoint R)
  first_match method path [] = none
  first_match method path (er ∷ ers) = elim (answer method path er) [
    | invalid_path ↦ first_match method path ers
    | method_not_allowed ↦ first_match method path ers
    | matched _ ↦ some er
  ]

  abbrev pub outcome : Bool → Method → Str → List (Endpoint R) → Result ℕ ℕ
  outcome flag method path ers = elim (first_match method path ers) [
    | some er ↦ ok er.id
    | none ↦ err (if flag || any_of (fits_path path) ers then 405 else 404)
  ]

  -- The endpoint of a request is the first whose path fits it and whose methods have its method; with
  -- none, the status is 405 if the path of some endpoint fits, and 404 otherwise.
  pub resolve_from-outcome :
      (ers : List (Endpoint R)) (flag : Bool) (req : Request)
      → (resolve_from is_match ers flag req).0 ≡ outcome flag req.method req.path ers
  unfolding resolve_from
  resolve_from-outcome [] flag req = ground arith
  resolve_from-outcome (er ∷ ers) flag req =
      let (same_method, same_path) = resolve-keeps er req in
      let later = resolve_from-outcome ers false (resolve is_match er req).1 in
      let later' = resolve_from-outcome ers flag (resolve is_match er req).1 in
      let later'' = resolve_from-outcome ers true (resolve is_match er req).1 in
      ground (arith, resolve-answer er req)
