-- ===== src/Guard/Chain.antt =====
-- A chain of guards runs them one after the other, the one applied last first.
use saphir.Base.{
  ◌≡◌, refl, ap, ◌∙◌, Result, ok, err, ◌>>=◌, List, [], ◌∷◌, ◌++◌, reverse, arith, ◌⊎◌, inl, inr,
}
use mathlib.Core.List.{reverse-cons, append_assoc, append-nil}
use saphir.Http.{Request}
use saphir.Guard.{Guard, GuardChain, end, link, apply, validate}

module _ {Resp : Type 0} where
  -- The chain that `apply` builds from the guards in the order of the calls.
  abbrev pub apply_all : GuardChain Resp → List (Guard Resp) → GuardChain Resp
  apply_all chain [] = chain
  apply_all chain (g ∷ gs) = apply_all (apply chain g) gs

  -- Each guard is given the request of the one before; the first refusal is the answer.
  abbrev pub run_all : List (Guard Resp) → Request → Result Request Resp
  run_all [] req = ok req
  run_all (g ∷ gs) req = g req >>= run_all gs

  abbrev guards : GuardChain Resp → List (Guard Resp)
  guards end = []
  guards (link g rest) = g ∷ guards rest

  validate-run_all :
      (chain : GuardChain Resp) (req : Request) → validate chain req ≡ run_all (guards chain) req
  unfolding validate
  validate-run_all end req = refl
  validate-run_all (link g end) req = ground arith
  validate-run_all (link g (link h rest)) req = elim (result_cases (g req)) [
    | inl (req', e) ↦ rw e (validate-run_all (link h rest) req')
    | inr (resp, e) ↦ rw e
  ]
    where
      result_cases :
          (r : Result Request Resp) → ((a : Request) × (r ≡ ok a)) ⊎ ((b : Resp) × (r ≡ err b))
      result_cases (ok a) = inl (a, refl)
      result_cases (err b) = inr (b, refl)

  guards-apply_all :
      (chain : GuardChain Resp) (gs : List (Guard Resp))
      → guards (apply_all chain gs) ≡ reverse gs ++ guards chain
  unfolding apply
  guards-apply_all chain [] = refl
  guards-apply_all chain (g ∷ gs) =
      guards-apply_all (link g chain) gs ∙ rw reverse-cons (rw append_assoc)

  -- The guards run from the one applied last to the one applied first.
  pub validate-apply_all :
      (gs : List (Guard Resp)) (req : Request)
      → validate (apply_all end gs) req ≡ run_all (reverse gs) req
  validate-apply_all gs req =
      validate-run_all (apply_all end gs) req
      ∙ ap (λ hs. run_all hs req) (guards-apply_all end gs ∙ append-nil (reverse gs))
