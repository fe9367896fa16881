-- ===== src/Body/Load.antt =====
-- What is read of a body.
use saphir.Base.{
  ℕ, ◌≡◌, ◌≤◌, ◌<◌, ◌+◌, refl, sym, ◌∙◌, List, [], ◌∷◌, ◌++◌, Option, some, if◌then◌else◌, leb,
  length, length-append, Result, ok-injective, ok, err, All, arith,
}
use saphir.Errors.{SaphirError}
use saphir.Body.{Bytes, reached, is_zero, raw, read_more, load_second, load_raw, load}

module _ {X : Type 0} where
  -- The loop that `load` unrolls twice: chunks are appended until the limit is reached.
  abbrev pub gather :
      Option ℕ → Bytes → List (Result Bytes (SaphirError X)) → Result Bytes (SaphirError X)
  gather limit acc [] = ok acc
  gather limit acc (err e ∷ chunks) = err e
  gather limit acc (ok buf ∷ chunks) =
      if reached limit (acc ++ buf) then ok (acc ++ buf) else gather limit (acc ++ buf) chunks

  read_more-gather :
      (limit : Option ℕ) (acc : Bytes) (chunks : List (Result Bytes (SaphirError X)))
      → read_more limit acc chunks ≡ gather limit acc chunks
  unfolding read_more
  read_more-gather limit acc [] = refl
  read_more-gather limit acc (err e ∷ chunks) = refl
  read_more-gather limit acc (ok buf ∷ chunks) =
      ground (arith, read_more-gather limit (acc ++ buf) chunks)

  -- Reading a stream is the plain loop, unless the limit is 0: then nothing is read.
  pub load-gather :
      (limit : Option ℕ) (chunks : List (Result Bytes (SaphirError X)))
      → load limit (raw chunks) ≡ (if is_zero limit then ok [] else gather limit [] chunks)
  unfolding load load_raw load_second
  load-gather limit [] = refl
  load-gather limit (err e ∷ chunks) = refl
  load-gather limit (ok a ∷ []) = ground arith
  load-gather limit (ok a ∷ err e ∷ chunks) = ground arith
  load-gather limit (ok a ∷ ok b ∷ chunks) = ground (arith, read_more-gather limit (a ++ b) chunks)

  -- No chunk is longer than the size.
  abbrev pub ShortChunk : ℕ → Result Bytes (SaphirError X) → Type 0
  ShortChunk size (ok buf) = length buf ≤ size
  ShortChunk size (err e) = Unit

  gather-length :
      (limit size : ℕ) (acc : Bytes) (chunks : List (Result Bytes (SaphirError X))) {bytes : Bytes}
      → All (ShortChunk size) chunks
      → length acc < limit
      → gather (some limit) acc chunks ≡ ok bytes
      → length bytes < limit + size
  unfolding reached
  gather-length limit size acc [] {bytes} h k e =
      let same : acc ≡ bytes = ok-injective e in rw (sym same) (omega (arith, k))
  gather-length limit size acc (err x ∷ chunks) h k e = absurd (cc e)
  gather-length limit size acc (ok buf ∷ chunks) {bytes} (h, hs) k e =
      let rest = gather-length limit size (acc ++ buf) chunks {bytes = bytes} hs in
      ground (arith, length-append acc buf)

  -- With a limit that is not 0, less than the limit and one chunk more is read: the read stops at the
  -- chunk that reaches the limit, and that chunk is kept whole.
  pub load-length :
      (limit size : ℕ) (chunks : List (Result Bytes (SaphirError X))) {bytes : Bytes}
      → 0 < limit
      → All (ShortChunk size) chunks
      → load (some limit) (raw chunks) ≡ ok bytes
      → length bytes < limit + size
  load-length limit size chunks {bytes} k h e =
      gather-length limit size [] chunks h k
        (unread limit k (sym (load-gather (some limit) chunks) ∙ e))
    where
      unread :
          (n : ℕ)
          → 0 < n
          → (if leb n 0 then ok [] else gather (some limit) [] chunks) ≡ ok bytes
          → gather (some limit) [] chunks ≡ ok bytes
      unread n k e = ground arith
