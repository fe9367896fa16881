-- ===== src/File/Cache/Opening.antt =====
-- `FileCache::open_file` and `open_file_with_range`.
use saphir.Base.{ℕ, ◌+◌, ◌%◌, Bool, ◌&&◌, Option, none, some, if◌then◌else◌, leb, Result, ok, err}
use saphir.Text.{Str}
use saphir.Text.Laws.{str_key}
use saphir.Text.Decimal.{u64_limit}
use saphir.Errors.{SaphirError, io}
use saphir.File.Reader.{IoError, SaphirFile, new_cursor, File}
use saphir.File.Stream.{FileStream, new_stream, set_range}
use saphir.File.Compression.{Compression, raw, Encoders, no_encoder, compress_file}
use saphir.File.Cache.Entries.{cache_key}
use saphir.File.Cache.{
  get_cached, new_cacher, dyn_size, dyn_mime, shared_file, CacheInner, FileCache, DynFile, Shared,
  on_disk, in_memory, from_cache, caching,
}

module _ {T : Type 0} (disk : SaphirFile (File T)) where
  module _ {G D B : Type 0} (encoders : Encoders G D B)
      (open_disk : Str → Result (File T) IoError) where
    -- The file that `open_file` compresses: the raw one of the cache, or the one on the disk
    unfoldable pub open_source : CacheInner → Str → Result (DynFile T) IoError
    open_source store path = elim (get_cached store (path, raw)) [
      | some file ↦ ok (from_cache file)
      | none ↦ elim (open_disk path) [ ok file ↦ ok (on_disk file) | err e ↦ err e ]
    ]

    -- Whether `open_file` lets a file into the cache
    unfoldable pub has_room : FileCache → CacheInner → ℕ → Bool
    has_room limits store file_size =
        leb ((file_size + store.size) % u64_limit) limits.max_capacity
        && leb file_size limits.max_file_size

    unfoldable pub compress_source :
        ℕ
        → ℕ
        → FileCache
        → CacheInner
        → Str
        → Compression
        → DynFile T
        → Option (Result (DynFile T) (SaphirError IoError))
    compress_source polls waits limits store path compression file =
        elim (compress_file encoders (shared_file disk) polls
          (record { file = file; store = store; waits = waits }) no_encoder compression) [
            | none ↦ none
            | some (err e) ↦ some (err (io e))
            | some (ok compressed) ↦
                let cursor = new_cursor compressed (dyn_mime disk file) path in
                some (
                  ok (
                    if has_room limits store (dyn_size disk file)
                    then caching (new_cacher (path, compression) cursor)
                    else in_memory cursor))
          ]

    -- `open_file`, on a number of polls of the file that it compresses
    unfoldable pub open_file :
        ℕ
        → ℕ
        → FileCache
        → CacheInner
        → Str
        → Compression
        → Option (Result (FileStream (Shared T)) (SaphirError IoError))
    open_file polls waits limits store path compression =
        elim (get_cached store (path, compression)) [
          | some file ↦
              some
                (ok (new_stream (record { file = from_cache file; store = store; waits = waits })))
          | none ↦ elim (open_source store path) [
            | err e ↦ some (err (io e))
            | ok file ↦ elim (compress_source polls waits limits store path compression file) [
              | none ↦ none
              | some (err e) ↦ some (err e)
              | some (ok opened) ↦
                  some (ok (new_stream (record { file = opened; store = store; waits = waits })))
            ]
          ]
        ]

    -- `open_file_with_range`
    unfoldable pub open_file_with_range :
        ℕ → CacheInner → Str → ℕ × ℕ → Result (FileStream (Shared T)) (SaphirError IoError)
    open_file_with_range waits store path range = elim (open_source store path) [
      | err e ↦ err (io e)
      | ok file ↦
          let (stream, result) =
            set_range (shared_file disk) range.0 range.1
              (new_stream (record { file = file; store = store; waits = waits })) in
          elim result [ ok _ ↦ ok stream | err e ↦ err (io e) ]
    ]
