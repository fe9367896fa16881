-- ===== src/Body.antt =====
-- saphir/src/body.rs: reading a body up to the limit of bytes, and the body as a future. A raw body is
-- the chunks that its stream yields, an error among them; `limit` is `REQUEST_BODY_BYTES_LIMIT`.
pub mod Drain
pub mod Http
pub mod Load
pub mod Reread
use saphir.Base.{
  ℕ, Bool, true, false, List, [], ◌∷◌, ◌++◌, Option, none, some, if◌then◌else◌, leb, length, Result,
  ok, err, ◌>>=◌,
}
use saphir.Errors.{SaphirError, body_already_taken}

abbrev pub Bytes : Type 0
Bytes = List ℕ

-- `REQUEST_BODY_BYTES_LIMIT.as_ref().filter(|p| len >= **p).is_some()`
unfoldable pub reached : Option ℕ → Bytes → Bool
reached none bytes = false
reached (some limit) bytes = leb limit (length bytes)

abbrev pub is_zero : Option ℕ → Bool
is_zero none = false
is_zero (some limit) = leb limit 0

pub data BodyInner (X : Type 0) : Type 0 where
  raw : List (Result Bytes (SaphirError X)) → BodyInner X
  memory : Bytes → BodyInner X

-- The future of a body: not made yet, at work on what was taken, or done. A done one that is
-- polled again panics.
pub data Fut (X : Type 0) : Type 0 where
  unmade : Fut X
  working : BodyInner X → Fut X
  done : Fut X

pub record Body (X : Type 0) : Type 0 where
  pub inner : Option (BodyInner X)
  pub fut : Fut X

pub data Poll (X Out : Type 0) : Type 0 where
  ready : Result Out (SaphirError X) → Poll X Out
  pending panics : Poll X Out

module _ {X : Type 0} where
  -- The `while let` loop of `load`, on the bytes that are read already
  unfoldable pub read_more :
      Option ℕ → Bytes → List (Result Bytes (SaphirError X)) → Result Bytes (SaphirError X)
  read_more limit vec [] = ok vec
  read_more limit vec (err e ∷ chunks) = err e
  read_more limit vec (ok buf ∷ chunks) =
      let rest = read_more limit (vec ++ buf) chunks in
      if reached limit (vec ++ buf) then ok (vec ++ buf) else rest

  -- From the second chunk on
  unfoldable pub load_second :
      Option ℕ → Bytes → List (Result Bytes (SaphirError X)) → Result Bytes (SaphirError X)
  load_second limit first [] = ok first
  load_second limit first (err e ∷ chunks) = err e
  load_second limit first (ok second ∷ chunks) =
      if reached limit (first ++ second)
      then ok (first ++ second)
      else read_more limit (first ++ second) chunks

  unfoldable pub load_raw :
      Option ℕ → List (Result Bytes (SaphirError X)) → Result Bytes (SaphirError X)
  load_raw limit [] = ok []
  load_raw limit (err e ∷ chunks) = err e
  load_raw limit (ok first ∷ chunks) =
      if reached limit first then ok first else load_second limit first chunks

  -- `BodyInner::load`
  unfoldable pub load : Option ℕ → BodyInner X → Result Bytes (SaphirError X)
  load limit (raw chunks) = if is_zero limit then ok [] else load_raw limit chunks
  load limit (memory b) = if is_zero limit then ok [] else ok b

  -- `take` and `take_as`: the taken body, and what is left
  unfoldable pub take : Body X → Body X × Body X
  take b = (record { inner = b.inner; fut = unmade }, record b { inner = none })

  module _ {Out : Type 0} (limit : Option ℕ)
      (from_bytes : Bytes → Result (Out × Bytes) (SaphirError X)) where
    unfoldable pub generate : BodyInner X → Result (Out × Bytes) (SaphirError X)
    generate inner = load limit inner >>= from_bytes

    -- The poll of the future that is at work; `is_ready` tells whether it comes to its end.
    unfoldable pub poll_working : Bool → Body X → BodyInner X → Poll X Out × Body X
    poll_working false b inner = (pending, record b { fut = working inner })
    poll_working true b inner = elim (generate inner) [
      | ok (out, bytes) ↦ (ready (ok out), record { inner = some (memory bytes); fut = done })
      | err e ↦ (ready (err e), record b { fut = done })
    ]

    -- `poll` of a body
    unfoldable pub poll : Bool → Body X → Poll X Out × Body X
    poll is_ready b = elim b.fut [
      | working inner ↦ poll_working is_ready b inner
      | done ↦ (panics, b)
      | unmade ↦ elim b.inner [
        | some inner ↦ poll_working is_ready (record b { inner = none }) inner
        | none ↦ (ready (err body_already_taken), b)
      ]
    ]
