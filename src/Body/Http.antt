-- ===== src/Body/Http.antt =====
-- saphir/src/body.rs: a body as the body of an HTTP message. A raw body is polled by hyper: `is_ready` tells whether its
-- next chunk is there, and what hyper knows of its end, size and trailers is an argument.
use saphir.Base.{
  ℕ, Bool, true, false, List, [], ◌∷◌, Option, none, some, Result, ok, err, length, ltb, unwrap_or,
}
use saphir.Errors.{SaphirError, body_already_taken}
use saphir.Body.{Bytes, BodyInner, raw, memory, Body, unmade, Poll, ready}

pub data DataPoll (X : Type 0) : Type 0 where
  yields : Option (Result Bytes (SaphirError X)) → DataPoll X
  waits : DataPoll X

module _ {X : Type 0} where
  abbrev pub empty_inner : BodyInner X
  empty_inner = raw []

  unfoldable pub from_inner : BodyInner X → Body X
  from_inner inner = record { inner = some inner; fut = unmade }

  -- `into_raw`; `of_bytes` is hyper's body of some bytes.
  unfoldable pub into_raw :
      (Bytes → List (Result Bytes (SaphirError X)))
      → BodyInner X
      → List (Result Bytes (SaphirError X))
  into_raw of_bytes (raw chunks) = chunks
  into_raw of_bytes (memory b) = of_bytes b

  -- The conversion of a body into a raw one
  unfoldable pub body_into_raw :
      (Bytes → List (Result Bytes (SaphirError X))) → Body X → List (Result Bytes (SaphirError X))
  body_into_raw of_bytes b = into_raw of_bytes (unwrap_or b.inner empty_inner)

  -- `transmute`: the content is taken, and a second one is empty.
  unfoldable pub transmute :
      {T : Type 0} → (T → List (Result Bytes (SaphirError X))) → Option T → Body X × Option T
  transmute into_content (some content) = (from_inner (raw (into_content content)), none)
  transmute into_content none = (from_inner (raw []), none)

  -- `poll_data` of the inner body
  unfoldable pub poll_inner : Bool → BodyInner X → DataPoll X × BodyInner X
  poll_inner is_ready (memory []) = (yields none, memory [])
  poll_inner is_ready (memory (byte ∷ b)) = (yields (some (ok (byte ∷ b))), memory (byte ∷ b))
  poll_inner false (raw chunks) = (waits, raw chunks)
  poll_inner true (raw []) = (yields none, raw [])
  poll_inner true (raw (chunk ∷ chunks)) = (yields (some chunk), raw chunks)

  unfoldable pub poll_data : Bool → Body X → DataPoll X × Body X
  poll_data is_ready b = elim b.inner [
    | none ↦ (yields (some (err body_already_taken)), b)
    | some inner ↦
        let (polled, rest) = poll_inner is_ready inner in (polled, record b { inner = some rest })
  ]

  unfoldable pub trailers_inner :
      {Trailers : Type 0}
      → (List (Result Bytes (SaphirError X)) → Poll X (Option Trailers))
      → BodyInner X
      → Poll X (Option Trailers)
  trailers_inner raw_trailers (memory b) = ready (ok none)
  trailers_inner raw_trailers (raw chunks) = raw_trailers chunks

  unfoldable pub poll_trailers :
      {Trailers : Type 0}
      → (List (Result Bytes (SaphirError X)) → Poll X (Option Trailers))
      → Body X
      → Poll X (Option Trailers)
  poll_trailers raw_trailers b = elim b.inner [
    | none ↦ ready (err body_already_taken)
    | some inner ↦ trailers_inner raw_trailers inner
  ]

  unfoldable pub ends_inner : (List (Result Bytes (SaphirError X)) → Bool) → BodyInner X → Bool
  ends_inner raw_ends (raw chunks) = raw_ends chunks
  ends_inner raw_ends (memory b) = ltb 0 (length b)

  unfoldable pub is_end_stream : (List (Result Bytes (SaphirError X)) → Bool) → Body X → Bool
  is_end_stream raw_ends b = elim b.inner [ none ↦ true | some inner ↦ ends_inner raw_ends inner ]

  unfoldable pub hint_inner :
      {Hint : Type 0}
      → (ℕ → Hint)
      → (List (Result Bytes (SaphirError X)) → Hint)
      → BodyInner X
      → Hint
  hint_inner exact raw_hint (raw chunks) = raw_hint chunks
  hint_inner exact raw_hint (memory b) = exact (length b)

  unfoldable pub size_hint :
      {Hint : Type 0} → (ℕ → Hint) → (List (Result Bytes (SaphirError X)) → Hint) → Body X → Hint
  size_hint exact raw_hint b = elim b.inner [
    | none ↦ exact 0
    | some inner ↦ hint_inner exact raw_hint inner
  ]
