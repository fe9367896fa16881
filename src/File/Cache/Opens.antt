-- ===== src/File/Cache/Opens.antt =====
-- What the streams of `open_file` owe, for a cache that holds what it says.
use saphir.Base.{
  ℕ, ◌≡◌, refl, ◌∙◌, Bool, true, false, List, Option, none, some, if◌then◌else◌, Result, ok, err,
  arith,
}
use mathlib.Core.Path.{subst}
use saphir.Text.{Str}
use saphir.Errors.{SaphirError, io}
use saphir.File.Reader.{IoError, SaphirFile, Reads, IsReader, new_cursor, File}
use saphir.File.Stream.{FileStream, new_stream, max_buffer}
use saphir.File.Stream.Owes.{owes, IsSteady}
use saphir.File.Compression.{Compression, Encoders, no_encoder, compress_file}
use saphir.File.Compression.Lossless.{Decodes, decode-compress_file}
use saphir.File.Cache.Entries.{cache_key}
use saphir.File.Cache.Reader.{shared_law, shared_file-IsReader, dyn_left}
use saphir.File.Cache.{
  CacheInner, FileCache, CachedFile, DynFile, in_memory, from_cache, caching, Shared, get_cached,
  shared_file, new_cacher, dyn_size, dyn_mime,
}
use saphir.File.Cache.Opening.{open_source, compress_source, open_file, has_room}
use saphir.File.Cache.Holds.{IsConsistent, OpensWhole, Holds, get_cached-Holds, open_source-Holds}

module _ {T G D B : Type 0} (disk : SaphirFile (File T)) (disk_law : Reads (File T))
    (encoders : Encoders G D B) (laws : Decodes encoders)
    (open_disk : Str → Result (File T) IoError) (content : Str → List ℕ) where
  -- A stream that is opened is steady, reads the whole file, and owes what decodes to the content.
  abbrev pub Serves : Compression → Str → FileStream (Shared T) → Type 0
  Serves compression path stream =
      IsSteady (shared_law disk_law max_buffer) stream
      × (laws.decode compression (owes (shared_law disk_law max_buffer) stream) ≡ content path)
      × (stream.range_len ≡ none)

  new_stream-Serves :
      (waits : ℕ) (store : CacheInner) (compression : Compression) (path : Str) (f : DynFile T)
      (bytes : List ℕ)
      → Holds disk disk_law encoders laws open_disk content store f bytes
      → laws.decode compression bytes ≡ content path
      → Serves compression path (new_stream (record { file = f; store = store; waits = waits }))
  unfolding new_stream Holds
  new_stream-Serves waits store compression path f bytes (sound, left) decoded =
      ((λ h. absurd cc, λ _. (sound, tt)), rw left decoded, refl)

  compress_source-Holds :
      (polls waits : ℕ) (limits : FileCache) (store : CacheInner) (path : Str)
      (compression : Compression) (f opened : DynFile T)
      → IsReader disk max_buffer disk_law
      → Holds disk disk_law encoders laws open_disk content store f (content path)
      → compress_source disk encoders open_disk polls waits limits store path compression f
        ≡ some (ok opened)
      → (bytes : List ℕ) × (laws.decode compression bytes ≡ content path)
        × Holds disk disk_law encoders laws open_disk content store opened bytes
  unfolding compress_source Holds new_cacher new_cursor
  compress_source-Holds polls waits limits store path compression f opened reads (sound, left) e =
      from_compressed
        (compress_file encoders (shared_file disk) polls
          (record { file = f; store = store; waits = waits }) no_encoder compression)
        refl e
    where
      from_compressed :
          (o : Option (Result (List ℕ) IoError))
          → compress_file encoders
              (shared_file disk)
              polls
              (record { file = f; store = store; waits = waits })
              no_encoder
              compression
            ≡ o
          → ◌≡◌ {A = Option (Result (DynFile T) (SaphirError IoError))}
              (elim o [
                | none ↦ none
                | some (err x) ↦ some (err (io x))
                | some (ok compressed) ↦ some (
                    ok (
                      if has_room disk encoders open_disk limits store (dyn_size disk f)
                      then caching (
                          new_cacher
                            (path, compression)
                            (new_cursor compressed (dyn_mime disk f) path))
                      else in_memory (new_cursor compressed (dyn_mime disk f) path)))
              ])
              (some (ok opened))
          → (bytes : List ℕ) × (laws.decode compression bytes ≡ content path)
            × Holds disk disk_law encoders laws open_disk content store opened bytes
      from_compressed none h k = absurd cc
      from_compressed (some (err x)) h k = absurd cc
      from_compressed (some (ok compressed)) h k =
          let decoded : laws.decode compression compressed ≡ dyn_left disk_law max_buffer store f =
            decode-compress_file encoders laws (shared_file disk) (shared_law disk_law max_buffer)
              compression polls (record { file = f; store = store; waits = waits }) compressed
              (shared_file-IsReader disk_law max_buffer disk (omega arith) reads) sound h in
          (
            compressed,
            decoded ∙ left,
            kept (has_room disk encoders open_disk limits store (dyn_size disk f)) k,
          )
        where
          kept :
              (room : Bool)
              → ◌≡◌ {A = Option (Result (DynFile T) (SaphirError IoError))}
                  (some (
                    ok (
                      if room
                      then caching (
                          new_cacher
                            (path, compression)
                            (new_cursor compressed (dyn_mime disk f) path))
                      else in_memory (new_cursor compressed (dyn_mime disk f) path))))
                  (some (ok opened))
              → Holds disk disk_law encoders laws open_disk content store opened compressed
          kept true k =
              let same : caching
                    (new_cacher (path, compression) (new_cursor compressed (dyn_mime disk f) path))
                  ≡ opened =
                cc in
              subst (λ x. Holds disk disk_law encoders laws open_disk content store x compressed)
                same (tt, refl)
          kept false k =
              let same : in_memory (new_cursor compressed (dyn_mime disk f) path) ≡ opened = cc in
              subst (λ x. Holds disk disk_law encoders laws open_disk content store x compressed)
                same (tt, refl)

  -- What `open_file` opens, from the cache or from the disk, decodes to the content of the path.
  pub open_file-Serves :
      (polls waits : ℕ) (limits : FileCache) (store : CacheInner) (path : Str)
      (compression : Compression) (stream : FileStream (Shared T))
      → IsReader disk max_buffer disk_law
      → OpensWhole disk disk_law encoders laws open_disk content
      → IsConsistent laws.decode content store
      → open_file disk encoders open_disk polls waits limits store path compression
        ≡ some (ok stream)
      → Serves compression path stream
  unfolding open_file
  open_file-Serves polls waits limits store path compression stream reads opens consistent e =
      from_cached (get_cached store (path, compression)) refl e
    where
      opened_stream : DynFile T → FileStream (Shared T)
      opened_stream f = new_stream (record { file = f; store = store; waits = waits })

      from_compressed :
          (f : DynFile T)
          → Holds disk disk_law encoders laws open_disk content store f (content path)
          → (o : Option (Result (DynFile T) (SaphirError IoError)))
          → compress_source disk encoders open_disk polls waits limits store path compression f ≡ o
          → ◌≡◌ {A = Option (Result (FileStream (Shared T)) (SaphirError IoError))}
              (elim o [
                | none ↦ none
                | some (err x) ↦ some (err x)
                | some (ok opened) ↦ some (ok (opened_stream opened))
              ])
              (some (ok stream))
          → Serves compression path stream
      from_compressed f holds none h k = absurd cc
      from_compressed f holds (some (err x)) h k = absurd cc
      from_compressed f holds (some (ok opened)) h k =
          let (bytes, decoded, kept) =
            compress_source-Holds polls waits limits store path compression f opened reads holds
              h in
          let same : opened_stream opened ≡ stream = cc in
          subst (Serves compression path) same
            (new_stream-Serves waits store compression path opened bytes kept decoded)

      from_source :
          (r : Result (DynFile T) IoError)
          → open_source disk encoders open_disk store path ≡ r
          → ◌≡◌ {A = Option (Result (FileStream (Shared T)) (SaphirError IoError))}
              (elim r [
                | err x ↦ some (err (io x))
                | ok f ↦
                    elim (compress_source disk encoders open_disk polls waits limits store path
                      compression f) [
                        | none ↦ none
                        | some (err x) ↦ some (err x)
                        | some (ok opened) ↦ some (ok (opened_stream opened))
                      ]
              ])
              (some (ok stream))
          → Serves compression path stream
      from_source (err x) h k = absurd cc
      from_source (ok f) h k =
          from_compressed f
            (open_source-Holds disk disk_law encoders laws open_disk content store path f opens
              consistent h)
            (compress_source disk encoders open_disk polls waits limits store path compression f)
            refl k

      from_cached :
          (o : Option CachedFile)
          → get_cached store (path, compression) ≡ o
          → ◌≡◌ {A = Option (Result (FileStream (Shared T)) (SaphirError IoError))}
              (elim o [
                | some f ↦ some (ok (opened_stream (from_cache f)))
                | none ↦ elim (open_source disk encoders open_disk store path) [
                  | err x ↦ some (err (io x))
                  | ok f ↦
                      elim (compress_source disk encoders open_disk polls waits limits store path
                        compression f) [
                          | none ↦ none
                          | some (err x) ↦ some (err x)
                          | some (ok opened) ↦ some (ok (opened_stream opened))
                        ]
                ]
              ])
              (some (ok stream))
          → Serves compression path stream
      from_cached none h k = from_source (open_source disk encoders open_disk store path) refl k
      from_cached (some f) h k =
          let (bytes, found, holds) =
            get_cached-Holds disk disk_law encoders laws open_disk content store (path, compression)
              f h in
          let same : opened_stream (from_cache f) ≡ stream = cc in
          subst (Serves compression path) same (
            new_stream-Serves waits store compression path (from_cache f) bytes holds
              (consistent (path, compression) bytes found))
