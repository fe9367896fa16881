-- ===== src/File/Compression/Ends.antt =====
-- `compress_file` comes to its end.
use saphir.Base.{
  ℕ, zero, suc, ◌+◌, ◌<◌, ◌≡◌, refl, Bool, true, List, [], ◌∷◌, Option, none, some, Result, ok, err,
  length, length-append, arith, is_some,
}
use mathlib.Core.Path.{subst}
use saphir.File.Reader.{IoError, ready, SaphirFile, Reads, Answers, IsReader}
use saphir.File.Stream.{max_buffer}
use saphir.File.Stream.Prompt.{IsPrompt}
use saphir.File.Compression.{
  Compression, Encoders, Encoder, choose_encoder, write_all, finish, match_polled, encode,
  compress_file,
}

module _ {G D B R : Type 0} (encoders : Encoders G D B) (file : SaphirFile R) (law : Reads R) where
  encode-is_some :
      (n : ℕ) (r : R) (e : Encoder G D B)
      → length (law.left r) < n
      → IsReader file max_buffer law
      → IsPrompt file max_buffer law
      → law.IsSound r
      → is_some (encode encoders file n r e) ≡ true
  unfolding encode match_polled
  encode-is_some zero r e room reads prompt sound = absurd (omega arith)
  encode-is_some (suc n) r e room reads prompt sound =
      let (next, found, read) = prompt r sound in
      rw (read, encode)
        (from_read (λ r' e' room' sound'. encode-is_some n r' e' room' reads prompt sound') next
          found (subst (Answers law r) read (reads r sound)))
    where
      from_read :
          ((r' : R) (e' : Encoder G D B)
            → length (law.left r') < n
            → law.IsSound r'
            → is_some (encode encoders file n r' e') ≡ true)
          → (next : R) (found : List ℕ) → Answers law r (next, ready (ok found))
          → is_some (match_polled encoders (encode encoders file n) e (next, ready (ok found)))
            ≡ true
      from_read again next [] answers = refl
      from_read again next (x ∷ xs) (sound', same, ends) =
          from_written (write_all encoders (x ∷ xs) e)
        where
          shorter : length (law.left next) < n
          shorter =
              let sum : length (law.left r) ≡ suc (length xs) + length (law.left next) =
                rw same (length-append (x ∷ xs) (law.left next)) in
              omega (arith, sum, room)

          from_written :
              (o : Result (Encoder G D B) IoError)
              → is_some (elim o [
                | ok written ↦ encode encoders file n next written
                | err y ↦ some (err y)
              ])
                ≡ true
          from_written (err y) = refl
          from_written (ok written) = again next written shorter sound'

  -- Of a reader that never waits and never fails, as many polls as there are bytes left, and one more,
  -- are enough for the loop of `compress_file`.
  pub compress_file-is_some :
      (n : ℕ) (r : R) (e : Encoder G D B) (c : Compression)
      → length (law.left r) < n
      → IsReader file max_buffer law
      → IsPrompt file max_buffer law
      → law.IsSound r
      → is_some (compress_file encoders file n r e c) ≡ true
  unfolding compress_file
  compress_file-is_some n r e c room reads prompt sound =
      from_encode (encode encoders file n r (choose_encoder encoders c e))
        (encode-is_some n r (choose_encoder encoders c e) room reads prompt sound)
    where
      from_encode :
          (o : Option (Result (Encoder G D B) IoError))
          → is_some o ≡ true
          → ◌≡◌ {A = Bool}
              (is_some {A = Result (List ℕ) IoError} (elim o [
                | none ↦ none
                | some (ok written) ↦ some (finish encoders written)
                | some (err x) ↦ some (err x)
              ]))
              true
      from_encode none h = absurd cc
      from_encode (some (ok written)) h = refl
      from_encode (some (err x)) h = refl
