-- ===== src/File/Cache.antt =====
-- saphir/src/file/cache.rs: the cache of files, the files that are read out of it, and the ones that are
-- copied into it while they are read. The cache is shared: it is an argument of what reads it, and a
-- result of what writes it. `waits` counts the polls that find a writer at the lock.
pub mod Reader
pub mod Entries
pub mod Opening
pub mod Holds
pub mod Opens
pub mod Saved
pub mod Seeks
use saphir.Base.{
  ℕ, ◌+◌, ◌-◌, ◌%◌, Bool, true, false, ◌==◌, List, [], ◌∷◌, ◌++◌, Option, none, some, if◌then◌else◌,
  leb, ltb, length, take, Result, ok, err,
}
use saphir.Base.Dict.{get, insert}
use saphir.Text.{Str}
use saphir.Text.Laws.{str_key}
use saphir.Text.Decimal.{u64_limit}
use saphir.File.Reader.{
  IoError, broken_pipe, invalid_input, Poll, ready, pending, forward, back_suc, SeekFrom, start,
  current, finish, SaphirFile, read_cursor, FileCursor, read_file_cursor, seek_file_cursor, File,
}
use saphir.File.Cache.Entries.{cache_key, CacheKey}

pub record CacheInner : Type 0 where
  pub cache : List (CacheKey × List ℕ)
  pub size : ℕ

-- `FileCache`, but for the shared part
pub record FileCache : Type 0 where
  pub max_file_size : ℕ
  pub max_capacity : ℕ

-- `get_file_future` is the position and the length that a read started with.
pub record CachedFile : Type 0 where
  pub key : CacheKey
  pub path : Str
  pub mime : Option Str
  pub position : ℕ
  pub get_file_future : Option (ℕ × ℕ)
  pub size : ℕ

-- `FileCache::get` and `FileCache::insert`
abbrev pub cached_file : CacheKey → List ℕ → CachedFile
cached_file key file = record {
  key = key;
  path = key.0;
  mime = none;
  position = 0;
  get_file_future = none;
  size = length file;
}

unfoldable pub get_cached : CacheInner → CacheKey → Option CachedFile
get_cached store key = elim (get key store.cache) [
  | none ↦ none
  | some file ↦ some (cached_file key file)
]

unfoldable pub insert_cached : CacheKey → List ℕ → CacheInner → CacheInner
insert_cached key value store = record {
  cache = insert key value store.cache;
  size = (store.size + length value) % u64_limit;
}

-- `read_async`
unfoldable pub read_async : CacheKey → CacheInner → ℕ → ℕ → Result (List ℕ) IoError
read_async key store position len = elim (get key store.cache) [
  | some bytes ↦ ok (read_cursor len (record { bytes = bytes; position = position })).1
  | none ↦ err broken_pipe
]

-- What `poll_read` makes of the bytes of its future
unfoldable pub deliver :
    ℕ → CachedFile → Result (List ℕ) IoError → CachedFile × Poll (Result (List ℕ) IoError)
deliver size file (ok []) = (record file { get_file_future = none }, ready (ok []))
deliver size file (ok (byte ∷ bytes)) = (
  record file { position = file.position + length (byte ∷ bytes); get_file_future = none },
  ready (ok (take size (byte ∷ bytes))),
)
deliver size file (err e) = (record file { get_file_future = none }, ready (err e))

-- The read that is at work, or a new one
unfoldable pub current_read : ℕ → CachedFile → ℕ × ℕ
current_read size file = elim file.get_file_future [
  | some at_work ↦ at_work
  | none ↦ (file.position, size)
]

-- `poll_read` of a cached file; `free` tells whether the lock can be had.
unfoldable pub read_cached :
    Bool → CacheInner → ℕ → CachedFile → CachedFile × Poll (Result (List ℕ) IoError)
read_cached false store size file =
    (record file { get_file_future = some (current_read size file) }, pending)
read_cached true store size file =
    deliver size file
      (read_async file.key store (current_read size file).0 (current_read size file).1)

-- `poll_seek` of a cached file. The cast of a negative offset and the sum wrap around.
unfoldable pub seek_cached : SeekFrom → CachedFile → CachedFile × Result ℕ IoError
seek_cached (start i) file =
    if ltb i file.size then (record file { position = i }, ok i) else (file, err invalid_input)
seek_cached (current (forward i)) file =
    let position = (file.position + i) % u64_limit in
    (record file { position = position }, ok position)
seek_cached (current (back_suc i)) file =
    let position = (file.position + (u64_limit - (i + 1))) % u64_limit in
    if leb (i + 1) file.position
    then (record file { position = position }, ok position)
    else (file, err invalid_input)
seek_cached (finish (forward i)) file =
    (record file { position = file.size + i }, ok (file.size + i))
seek_cached (finish (back_suc i)) file =
    if leb (i + 1) file.size
    then (record file { position = file.size - (i + 1) }, ok (file.size - (i + 1)))
    else (file, err invalid_input)

-- A file that is copied into the cache; the code makes one over a file in memory only.
pub record FileCacher : Type 0 where
  pub key : CacheKey
  pub inner : FileCursor
  pub buff : List ℕ

unfoldable pub new_cacher : CacheKey → FileCursor → FileCacher
new_cacher key inner = record { key = key; inner = inner; buff = [] }

unfoldable pub read_cacher : ℕ → FileCacher → FileCacher × Poll (Result (List ℕ) IoError)
read_cacher size f =
    let (inner, polled) = read_file_cursor size f.inner in
    elim polled [
      | ready (ok bytes) ↦ (record f { inner = inner; buff = f.buff ++ bytes }, ready (ok bytes))
      | ready (err e) ↦ (record f { inner = inner }, ready (err e))
      | pending ↦ (record f { inner = inner }, pending)
    ]

unfoldable pub seek_cacher : SeekFrom → FileCacher → FileCacher × Result ℕ IoError
seek_cacher pos f =
    let (inner, result) = seek_file_cursor pos f.inner in (record f { inner = inner }, result)

-- The kinds of `SaphirFile` that a stream is made over
pub data DynFile (T : Type 0) : Type 0 where
  on_disk : File T → DynFile T
  in_memory : FileCursor → DynFile T
  from_cache : CachedFile → DynFile T
  caching : FileCacher → DynFile T

-- A file with the cache that it may read
pub record Shared (T : Type 0) : Type 0 where
  pub file : DynFile T
  pub store : CacheInner
  pub waits : ℕ

-- `Drop`, with the task that it spawns: what was read goes into the cache.
unfoldable pub drop_file : {T : Type 0} → DynFile T → CacheInner → CacheInner
drop_file (caching f) store = insert_cached f.key f.buff store
drop_file (on_disk f) store = store
drop_file (in_memory f) store = store
drop_file (from_cache f) store = store

module _ {T : Type 0} (disk : SaphirFile (File T)) where
  abbrev pub read_dyn : ℕ → ℕ → CacheInner → DynFile T → DynFile T × Poll (Result (List ℕ) IoError)
  read_dyn waits size store (on_disk f) =
      let (next, polled) = disk.poll_read size f in (on_disk next, polled)
  read_dyn waits size store (in_memory f) =
      let (next, polled) = read_file_cursor size f in (in_memory next, polled)
  read_dyn waits size store (from_cache f) =
      let (next, polled) = read_cached (waits == 0) store size f in (from_cache next, polled)
  read_dyn waits size store (caching f) =
      let (next, polled) = read_cacher size f in (caching next, polled)

  abbrev pub seek_dyn : SeekFrom → DynFile T → DynFile T × Result ℕ IoError
  seek_dyn pos (on_disk f) = let (next, result) = disk.seek pos f in (on_disk next, result)
  seek_dyn pos (in_memory f) =
      let (next, result) = seek_file_cursor pos f in (in_memory next, result)
  seek_dyn pos (from_cache f) = let (next, result) = seek_cached pos f in (from_cache next, result)
  seek_dyn pos (caching f) = let (next, result) = seek_cacher pos f in (caching next, result)

  -- `FileInfo` of each kind
  abbrev pub dyn_size : DynFile T → ℕ
  dyn_size (on_disk f) = disk.get_size f
  dyn_size (in_memory f) = f.size
  dyn_size (from_cache f) = f.size
  dyn_size (caching f) = f.inner.size

  abbrev pub dyn_mime : DynFile T → Option Str
  dyn_mime (on_disk f) = f.mime
  dyn_mime (in_memory f) = f.mime
  dyn_mime (from_cache f) = f.mime
  dyn_mime (caching f) = f.inner.mime

  abbrev pub dyn_path : DynFile T → Str
  dyn_path (on_disk f) = f.path
  dyn_path (in_memory f) = f.path
  dyn_path (from_cache f) = f.path
  dyn_path (caching f) = f.inner.path

  abbrev pub shared_file : SaphirFile (Shared T)
  shared_file = record {
    poll_read = λ size r.
        let (next, polled) = read_dyn r.waits size r.store r.file in
        (record r { file = next; waits = r.waits - 1 }, polled);
    seek = λ pos r. let (next, result) = seek_dyn pos r.file in (record r { file = next }, result);
    get_path = λ r. dyn_path r.file;
    get_mime = λ r. dyn_mime r.file;
    get_size = λ r. dyn_size r.file;
  }
