-- ===== src/File/Compression/Lossless.antt =====
-- What a compressed file decodes to.
use saphir.Base.{
  ℕ, zero, suc, ◌≡◌, refl, sym, ◌∙◌, List, [], ◌∷◌, ◌++◌, Option, none, some, Result, ok, err,
  >>=-eq-ok,
}
use mathlib.Core.Path.{subst}
use mathlib.Core.List.{append-nil, append_assoc}
use saphir.File.Reader.{IoError, Poll, ready, pending, SaphirFile, Reads, Answers, IsReader}
use saphir.File.Stream.{max_buffer}
use saphir.File.Compression.{
  Compression, raw, deflate, gzip, brotli, Encoders, Encoder, brotli_encoder, gzip_encoder,
  deflate_encoder, raw_encoder, no_encoder, choose_encoder, write_all, finish, match_polled, encode,
  compress_file,
}

-- What the formats promise: an encoder has the bytes that were written to it, and a decoder finds them
-- again in what the encoder makes of them.
pub record Decodes {G D B : Type 0} (encoders : Encoders G D B) : Type 0 where
  pub decode : Compression → List ℕ → List ℕ
  pub held_gzip : G → List ℕ
  pub held_deflate : D → List ℕ
  pub held_brotli : B → List ℕ
  pub raw_same : (bytes : List ℕ) → decode raw bytes ≡ bytes
  pub gzip_new : held_gzip encoders.new_gzip ≡ []
  pub gzip_write :
      (buf : List ℕ) (e next : G)
      → encoders.write_gzip buf e ≡ ok next
      → held_gzip next ≡ held_gzip e ++ buf
  pub gzip_finish :
      (e : G) (bytes : List ℕ) → encoders.finish_gzip e ≡ ok bytes → decode gzip bytes ≡ held_gzip e
  pub deflate_new : held_deflate encoders.new_deflate ≡ []
  pub deflate_write :
      (buf : List ℕ) (e next : D)
      → encoders.write_deflate buf e ≡ ok next
      → held_deflate next ≡ held_deflate e ++ buf
  pub deflate_finish :
      (e : D) (bytes : List ℕ)
      → encoders.finish_deflate e ≡ ok bytes
      → decode deflate bytes ≡ held_deflate e
  pub brotli_new : held_brotli encoders.new_brotli ≡ []
  pub brotli_write :
      (buf : List ℕ) (e next : B)
      → encoders.write_brotli buf e ≡ ok next
      → held_brotli next ≡ held_brotli e ++ buf
  pub brotli_flush :
      (e flushed : B)
      → encoders.flush_brotli e ≡ ok flushed
      → decode brotli (encoders.into_inner flushed) ≡ held_brotli e

module _ {G D B : Type 0} (encoders : Encoders G D B) (laws : Decodes encoders) where
  abbrev held : Encoder G D B → List ℕ
  held (brotli_encoder e) = laws.held_brotli e
  held (gzip_encoder e) = laws.held_gzip e
  held (deflate_encoder e) = laws.held_deflate e
  held (raw_encoder bytes) = bytes
  held no_encoder = []

  abbrev Suits : Compression → Encoder G D B → Type 0
  Suits brotli (brotli_encoder e) = Unit
  Suits gzip (gzip_encoder e) = Unit
  Suits deflate (deflate_encoder e) = Unit
  Suits raw (raw_encoder bytes) = Unit
  Suits _ _ = ⊥

  choose_encoder-held :
      (c : Compression)
      → Suits c (choose_encoder encoders c no_encoder)
        × (held (choose_encoder encoders c no_encoder) ≡ [])
  unfolding choose_encoder
  choose_encoder-held raw = (tt, refl)
  choose_encoder-held deflate = (tt, laws.deflate_new)
  choose_encoder-held gzip = (tt, laws.gzip_new)
  choose_encoder-held brotli = (tt, laws.brotli_new)

  write_all-held :
      (c : Compression) (buf : List ℕ) (e next : Encoder G D B)
      → Suits c e
      → write_all encoders buf e ≡ ok next
      → Suits c next × (held next ≡ held e ++ buf)
  unfolding write_all
  write_all-held brotli buf (brotli_encoder e) next s k =
      let (x, written, same) =
        >>=-eq-ok (encoders.write_brotli buf e) (λ x. ok (brotli_encoder x)) k in
      let same' : brotli_encoder x ≡ next = cc in
      subst (λ n. Suits brotli n × (held n ≡ laws.held_brotli e ++ buf)) same'
        (tt, laws.brotli_write buf e x written)
  write_all-held gzip buf (gzip_encoder e) next s k =
      let (x, written, same) = >>=-eq-ok (encoders.write_gzip buf e) (λ x. ok (gzip_encoder x)) k in
      let same' : gzip_encoder x ≡ next = cc in
      subst (λ n. Suits gzip n × (held n ≡ laws.held_gzip e ++ buf)) same'
        (tt, laws.gzip_write buf e x written)
  write_all-held deflate buf (deflate_encoder e) next s k =
      let (x, written, same) =
        >>=-eq-ok (encoders.write_deflate buf e) (λ x. ok (deflate_encoder x)) k in
      let same' : deflate_encoder x ≡ next = cc in
      subst (λ n. Suits deflate n × (held n ≡ laws.held_deflate e ++ buf)) same'
        (tt, laws.deflate_write buf e x written)
  write_all-held raw buf (raw_encoder bytes) next s k =
      let same : raw_encoder (bytes ++ buf) ≡ next = cc in
      subst (λ n. Suits raw n × (held n ≡ bytes ++ buf)) same (tt, refl)
  write_all-held c buf e next s k = absurd s

  finish-held :
      (c : Compression) (e : Encoder G D B) (bytes : List ℕ)
      → Suits c e
      → finish encoders e ≡ ok bytes
      → laws.decode c bytes ≡ held e
  unfolding finish
  finish-held brotli (brotli_encoder e) bytes s k =
      let (x, flushed, same) =
        >>=-eq-ok (encoders.flush_brotli e) (λ x. ok (encoders.into_inner x)) k in
      let same' : encoders.into_inner x ≡ bytes = cc in
      rw (sym same') (laws.brotli_flush e x flushed)
  finish-held gzip (gzip_encoder e) bytes s k = laws.gzip_finish e bytes k
  finish-held deflate (deflate_encoder e) bytes s k = laws.deflate_finish e bytes k
  finish-held raw (raw_encoder content) bytes s k =
      let same : content ≡ bytes = cc in laws.raw_same bytes ∙ sym same
  finish-held c e bytes s k = absurd s

  module _ {R : Type 0} (file : SaphirFile R) (law : Reads R) (c : Compression) where
    -- The encoder that comes out of the loop has what it had, and what the reader had left.
    abbrev Encodes : R → Encoder G D B → Option (Result (Encoder G D B) IoError) → Type 0
    Encodes r e none = Unit
    Encodes r e (some (err x)) = Unit
    Encodes r e (some (ok written)) = Suits c written × (held written ≡ held e ++ law.left r)

    Encodes-trans :
        (r next : R) (e written : Encoder G D B) (found : List ℕ)
        (o : Option (Result (Encoder G D B) IoError))
        → held written ≡ held e ++ found
        → law.left r ≡ found ++ law.left next
        → Encodes next written o
        → Encodes r e o
    Encodes-trans r next e written found none w l k = tt
    Encodes-trans r next e written found (some (err x)) w l k = tt
    Encodes-trans r next e written found (some (ok result)) w l (s, k) =
        (s, rw (k, w, l) (append_assoc (held e) found (law.left next)))

    match_polled-Encodes :
        (next : R → Encoder G D B → Option (Result (Encoder G D B) IoError)) (r : R)
        (e : Encoder G D B) (polled : R × Poll (Result (List ℕ) IoError))
        → Suits c e
        → Answers law r polled
        → ((r' : R) (e' : Encoder G D B) → law.IsSound r' → Suits c e' → Encodes r' e' (next r' e'))
        → Encodes r e (match_polled encoders next e polled)
    unfolding match_polled
    match_polled-Encodes next r e (inner, pending) s (sound, same) h =
        Encodes-trans r inner e e [] (next inner e) (sym (append-nil (held e))) (sym same)
          (h inner e sound s)
    match_polled-Encodes next r e (inner, ready (err x)) s answers h = tt
    match_polled-Encodes next r e (inner, ready (ok [])) s (sound, same, ends) h =
        (s, rw (ends refl) (sym (append-nil (held e))))
    match_polled-Encodes next r e (inner, ready (ok (x ∷ xs))) s (sound, same, ends) h =
        from_written (write_all encoders (x ∷ xs) e) refl
      where
        from_written :
            (o : Result (Encoder G D B) IoError)
            → write_all encoders (x ∷ xs) e ≡ o
            → Encodes r e (elim o [ ok written ↦ next inner written | err y ↦ some (err y) ])
        from_written (err y) k = tt
        from_written (ok written) k =
            let (suits, all_held) = write_all-held c (x ∷ xs) e written s k in
            Encodes-trans r inner e written (x ∷ xs) (next inner written) all_held same
              (h inner written sound suits)

    encode-Encodes :
        (n : ℕ) (r : R) (e : Encoder G D B)
        → IsReader file max_buffer law
        → law.IsSound r
        → Suits c e
        → Encodes r e (encode encoders file n r e)
    unfolding encode
    encode-Encodes zero r e reads sound s = tt
    encode-Encodes (suc n) r e reads sound s =
        match_polled-Encodes (encode encoders file n) r e (file.poll_read max_buffer r) s
          (reads r sound) λ r' e' sound' s'. encode-Encodes n r' e' reads sound' s'

    -- A file that is compressed decodes to all that its reader had left.
    pub decode-compress_file :
        (n : ℕ) (r : R) (bytes : List ℕ)
        → IsReader file max_buffer law
        → law.IsSound r
        → compress_file encoders file n r no_encoder c ≡ some (ok bytes)
        → laws.decode c bytes ≡ law.left r
    unfolding compress_file
    decode-compress_file n r bytes reads sound k =
        from_encode (encode encoders file n r (choose_encoder encoders c no_encoder))
          (encode-Encodes n r (choose_encoder encoders c no_encoder) reads sound
            (choose_encoder-held c).0)
          k
      where
        from_encode :
            (o : Option (Result (Encoder G D B) IoError))
            → Encodes r (choose_encoder encoders c no_encoder) o
            → ◌≡◌ {A = Option (Result (List ℕ) IoError)}
                (elim o [
                  | none ↦ none
                  | some (ok written) ↦ some (finish encoders written)
                  | some (err e) ↦ some (err e)
                ])
                (some (ok bytes))
            → laws.decode c bytes ≡ law.left r
        from_encode none h k = absurd cc
        from_encode (some (err e)) h k = absurd cc
        from_encode (some (ok written)) (s, same) k =
            let done : finish encoders written ≡ ok bytes = cc in
            finish-held c written bytes s done ∙ (same ∙ rw (choose_encoder-held c).1 refl)
