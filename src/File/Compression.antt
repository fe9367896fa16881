-- ===== src/File/Compression.antt =====
-- saphir/src/file/mod.rs: the compressions, their names, and `compress_file`. The encoders of the crates
-- flate2 and brotli are parameters; writing to one is `write_all`.
pub mod Lossless
pub mod Ends
use saphir.Base.{
  ℕ, zero, suc, List, [], ◌∷◌, ◌++◌, Option, none, some, if◌then◌else◌, Result, ok, err, ◌>>=◌,
}
use saphir.Text.{Str, codes, str_eq}
use saphir.File.Reader.{IoError, Poll, ready, pending, SaphirFile, broken_pipe, interrupted}
use saphir.File.Stream.{max_buffer}

-- In the order of `Ord`
pub data Compression : Type 0 where
  raw deflate gzip brotli : Compression

unfoldable pub rank : Compression → ℕ
rank raw = 0
rank deflate = 1
rank gzip = 2
rank brotli = 3

-- `FromStr`; none is the error, `Encoding not supported`.
unfoldable pub parse_compression : Str → Option Compression
parse_compression s =
    if str_eq s (codes "deflate")
    then some deflate
    else if str_eq s (codes "gzip")
    then some gzip
    else if str_eq s (codes "br")
    then some brotli
    else if str_eq s (codes "identity")
    then some raw
    else if str_eq s (codes "*")
    then some raw
    else none

-- `Display`
unfoldable pub print_compression : Compression → Str
print_compression deflate = codes "deflate"
print_compression gzip = codes "gzip"
print_compression brotli = codes "br"
print_compression raw = codes ""

-- The encoders of the two crates, with what they have written so far inside
pub record Encoders (G D B : Type 0) : Type 0 where
  pub new_gzip : G
  pub write_gzip : List ℕ → G → Result G IoError
  pub finish_gzip : G → Result (List ℕ) IoError
  pub new_deflate : D
  pub write_deflate : List ℕ → D → Result D IoError
  pub finish_deflate : D → Result (List ℕ) IoError
  pub new_brotli : B
  pub write_brotli : List ℕ → B → Result B IoError
  pub flush_brotli : B → Result B IoError
  pub into_inner : B → List ℕ

-- A raw encoder is a cursor at the end of its bytes.
pub data Encoder (G D B : Type 0) : Type 0 where
  brotli_encoder : B → Encoder G D B
  gzip_encoder : G → Encoder G D B
  deflate_encoder : D → Encoder G D B
  raw_encoder : List ℕ → Encoder G D B
  no_encoder : Encoder G D B

module _ {G D B : Type 0} (encoders : Encoders G D B) where
  -- The encoder that `compress_file` makes where it was given none
  unfoldable pub choose_encoder : Compression → Encoder G D B → Encoder G D B
  choose_encoder gzip no_encoder = gzip_encoder encoders.new_gzip
  choose_encoder deflate no_encoder = deflate_encoder encoders.new_deflate
  choose_encoder brotli no_encoder = brotli_encoder encoders.new_brotli
  choose_encoder raw no_encoder = raw_encoder []
  choose_encoder compression (brotli_encoder e) = brotli_encoder e
  choose_encoder compression (gzip_encoder e) = gzip_encoder e
  choose_encoder compression (deflate_encoder e) = deflate_encoder e
  choose_encoder compression (raw_encoder bytes) = raw_encoder bytes

  -- `write_all`, through `Encoder::write`
  unfoldable pub write_all : List ℕ → Encoder G D B → Result (Encoder G D B) IoError
  write_all buf (brotli_encoder e) = do next ← encoders.write_brotli buf e; ok (brotli_encoder next)
  write_all buf (gzip_encoder e) = do next ← encoders.write_gzip buf e; ok (gzip_encoder next)
  write_all buf (deflate_encoder e) = do
    next ← encoders.write_deflate buf e
    ok (deflate_encoder next)
  write_all buf (raw_encoder bytes) = ok (raw_encoder (bytes ++ buf))
  write_all buf no_encoder = err broken_pipe

  -- The last `match`
  unfoldable pub finish : Encoder G D B → Result (List ℕ) IoError
  finish (gzip_encoder e) = encoders.finish_gzip e
  finish (deflate_encoder e) = encoders.finish_deflate e
  finish (brotli_encoder e) = do flushed ← encoders.flush_brotli e; ok (encoders.into_inner flushed)
  finish (raw_encoder bytes) = ok bytes
  finish no_encoder = err interrupted

  -- What the loop does with the outcome of a poll of `file.read`; one that waits is polled again.
  unfoldable pub match_polled :
      {R : Type 0}
      → (R → Encoder G D B → Option (Result (Encoder G D B) IoError))
      → Encoder G D B
      → R × Poll (Result (List ℕ) IoError)
      → Option (Result (Encoder G D B) IoError)
  match_polled next target (file, pending) = next file target
  match_polled next target (file, ready (err e)) = some (err e)
  match_polled next target (file, ready (ok [])) = some (ok target)
  match_polled next target (file, ready (ok (byte ∷ bytes))) =
      elim (write_all (byte ∷ bytes) target) [
        | ok written ↦ next file written
        | err e ↦ some (err e)
      ]

  module _ {R : Type 0} (file : SaphirFile R) where
    -- The loop, on a number of polls; none is a loop that needs more of them.
    unfoldable pub encode : ℕ → R → Encoder G D B → Option (Result (Encoder G D B) IoError)
    encode zero r target = none
    encode (suc polls) r target = match_polled (encode polls) target (file.poll_read max_buffer r)

    unfoldable pub compress_file :
        ℕ → R → Encoder G D B → Compression → Option (Result (List ℕ) IoError)
    compress_file polls r given compression =
        elim (encode polls r (choose_encoder compression given)) [
          | none ↦ none
          | some (ok written) ↦ some (finish written)
          | some (err e) ↦ some (err e)
        ]
