-- ===== src/Request/Bodies.antt =====
-- The body of a request, loaded or turned inside out.
use saphir.Base.{◌≡◌, refl, some, Result, ok, err}
use saphir.Request.{Request, map_request, with_body, load_body, transpose_result, transpose_option}

module _ {Head T Jar Peer Op : Type 0} where
  -- Loading the body is mapping it to the outcome, and turning that inside out.
  pub load_body-transpose_result :
      {Out E : Type 0} (load : T → Result Out E) (r : Request Head T Jar Peer Op)
      → load_body load r ≡ transpose_result (map_request load r)
  unfolding load_body transpose_result map_request with_body
  load_body-transpose_result {Out = Out} {E = E} load r = by_outcome (load r.body)
    where
      by_outcome :
          (o : Result Out E)
          → ◌≡◌ {A = Result (Request Head Out Jar Peer Op) E}
              (elim o [ ok out ↦ ok (with_body out r) | err e ↦ err e ])
              (elim o [ ok body ↦ ok (with_body body r) | err e ↦ err e ])
      by_outcome (ok out) = refl
      by_outcome (err e) = refl

  -- A body that is there comes out with the request around it, all else as it was.
  pub transpose_option-map_request :
      {U : Type 0} (f : T → U) (r : Request Head T Jar Peer Op)
      → transpose_option (map_request (λ body. some (f body)) r) ≡ some (map_request f r)
  unfolding transpose_option map_request with_body
  transpose_option-map_request f r = refl
