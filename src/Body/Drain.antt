-- ===== src/Body/Drain.antt =====
-- saphir/src/body.rs: polling the data of a body until it ends, against loading it.
use saphir.Base.{
  ℕ, zero, suc, true, ◌≡◌, refl, List, [], ◌∷◌, ◌++◌, Option, none, some, Result, ok, err, length,
  ap, sym, ◌∙◌,
}
use saphir.Errors.{SaphirError}
use saphir.Body.{Bytes, raw, memory, Body, load, load_raw, load_second, read_more, reached}
use saphir.Body.Http.{yields, waits, poll_inner, poll_data, from_inner}

module _ {X : Type 0} where
  -- The bytes of at most so many polls of the data, put after those already seen; none where the data has not ended
  unfoldable pub drain : ℕ → Bytes → Body X → Option (Result Bytes (SaphirError X))
  drain zero seen b = none
  drain (suc polls) seen b =
      let (polled, rest) = poll_data true b in
      elim polled [
        | yields none ↦ some (ok seen)
        | yields (some (ok chunk)) ↦ drain polls (seen ++ chunk) rest
        | yields (some (err e)) ↦ some (err e)
        | waits ↦ drain polls seen rest
      ]

  drain-read_more :
      (seen : Bytes) (chunks : List (Result Bytes (SaphirError X)))
      → drain (suc (length chunks)) seen (from_inner (raw chunks))
        ≡ some (read_more none seen chunks)
  unfolding drain poll_data poll_inner from_inner read_more reached
  drain-read_more seen [] = refl
  drain-read_more seen (err e ∷ chunks) = refl
  drain-read_more seen (ok chunk ∷ chunks) = drain-read_more (seen ++ chunk) chunks

  load-read_more :
      (chunks : List (Result Bytes (SaphirError X)))
      → load none (raw chunks) ≡ read_more none [] chunks
  unfolding load load_raw load_second read_more reached
  load-read_more [] = refl
  load-read_more (err e ∷ chunks) = refl
  load-read_more (ok first ∷ []) = refl
  load-read_more (ok first ∷ err e ∷ chunks) = refl
  load-read_more (ok first ∷ ok second ∷ chunks) = refl

  drain-memory :
      (polls : ℕ) (seen : Bytes) (byte : ℕ) (b : Bytes)
      → drain polls seen (from_inner (memory (byte ∷ b))) ≡ none
  unfolding drain poll_data poll_inner from_inner
  drain-memory zero seen byte b = refl
  drain-memory (suc polls) seen byte b = drain-memory polls (seen ++ (byte ∷ b)) byte b

  -- The data of a raw body, polled once more than it has chunks, where none has to be waited for, is what
  -- loading it without a limit gives, its first error included. The data of a body in memory that is not
  -- empty never ends.
  pub drain-load :
      (chunks : List (Result Bytes (SaphirError X)))
      → (drain (suc (length chunks)) [] (from_inner (raw chunks)) ≡ some (load none (raw chunks)))
        × ((polls : ℕ) (byte : ℕ) (b : Bytes)
            → drain polls [] (from_inner (memory (byte ∷ b))) ≡ none)
  drain-load chunks = (
    drain-read_more [] chunks ∙ ap some (sym (load-read_more chunks)),
    λ polls byte b. drain-memory polls [] byte b,
  )
