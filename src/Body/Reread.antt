-- ===== src/Body/Reread.antt =====
-- A body that was read can be taken and read again.
use saphir.Base.{
  ℕ, ◌≡◌, refl, ap, ◌∙◌, true, Option, none, some, Result, ok, err, ◌>>=◌, >>=-eq-ok, arith,
}
use saphir.Errors.{SaphirError}
use saphir.Body.{
  Bytes, BodyInner, raw, memory, Fut, unmade, working, done, Body, ready, take, load, generate,
  poll_working, poll,
}

module _ {X Out : Type 0} (limit : Option ℕ)
    (from_bytes : Bytes → Result (Out × Bytes) (SaphirError X)) where
  load-memory :
      (inner : BodyInner X) {b : Bytes}
      → load limit inner ≡ ok b
      → load {X = X} limit (memory b) ≡ ok b
  unfolding load
  load-memory (raw chunks) e = ground arith
  load-memory (memory c) e = ground arith

  generate-memory :
      (same : (b : Bytes) (out : Out) (b' : Bytes) → from_bytes b ≡ ok (out, b') → b' ≡ b)
      (inner : BodyInner X) {out : Out} {b : Bytes}
      → generate limit from_bytes inner ≡ ok (out, b)
      → generate limit from_bytes (memory b) ≡ ok (out, b)
  unfolding generate
  generate-memory same inner {out} {b} e =
      let (c, loaded, made) = >>=-eq-ok (load limit inner) from_bytes e in
      let kept : b ≡ c = same c out b made in
      ap (λ t. load {X = X} limit (memory t) >>= from_bytes) kept
      ∙ ap (λ r. r >>= from_bytes) (load-memory inner loaded)
      ∙ made

  -- The poll of a taken body that has its bytes in memory
  poll-memory :
      (b : Bytes) (f : Fut X) {out : Out}
      → generate limit from_bytes (memory b) ≡ ok (out, b)
      → (poll limit from_bytes true (take (record { inner = some (memory b); fut = f })).0).0
        ≡ ready (ok out)
  unfolding poll poll_working take
  poll-memory b f e = rw (e, poll_working) refl

  poll_working-take :
      (same : (b : Bytes) (out : Out) (b' : Bytes) → from_bytes b ≡ ok (out, b') → b' ≡ b)
      (b : Body X) (inner : BodyInner X) {out : Out} (g : Result (Out × Bytes) (SaphirError X))
      → generate limit from_bytes inner ≡ g
      → (poll_working limit from_bytes true b inner).0 ≡ ready (ok out)
      → (poll limit from_bytes true (take (poll_working limit from_bytes true b inner).1).0).0
        ≡ ready (ok out)
  unfolding poll_working
  poll_working-take same b inner (err x) e h = absurd (cc (rw (e, poll_working) at h))
  poll_working-take same b inner {out} (ok (out', bytes)) e h =
      let equal : out' ≡ out = cc (rw (e, poll_working) at h) in
      rw (e, poll_working)
        (poll-memory bytes done (generate-memory same inner e)
          ∙ ap (λ (o : Out). ready (ok o)) equal)

  -- Where `from_bytes` gives the bytes back, a body whose poll was ready with a value, when it is taken
  -- and polled again, is ready with the same value.
  pub poll-take :
      (same : (b : Bytes) (out : Out) (b' : Bytes) → from_bytes b ≡ ok (out, b') → b' ≡ b)
      (b : Body X) {out : Out}
      → (poll limit from_bytes true b).0 ≡ ready (ok out)
      → (poll limit from_bytes true (take (poll limit from_bytes true b).1).0).0 ≡ ready (ok out)
  unfolding poll
  poll-take same b e = by_cases b.inner b.fut e
    where
      by_cases :
          (inner : Option (BodyInner X)) (f : Fut X) {out : Out}
          → (poll limit from_bytes true (record { inner = inner; fut = f })).0 ≡ ready (ok out)
          → (poll limit from_bytes true
              (take (poll limit from_bytes true (record { inner = inner; fut = f })).1).0).0
            ≡ ready (ok out)
      by_cases inner done e = absurd (cc e)
      by_cases inner (working w) e =
          poll_working-take same (record { inner = inner; fut = working w }) w
            (generate limit from_bytes w) refl e
      by_cases none unmade e = absurd (cc e)
      by_cases (some w) unmade e =
          poll_working-take same (record { inner = none; fut = unmade }) w
            (generate limit from_bytes w) refl e
