-- ===== src/Tests/Caches.antt =====
-- The cache of files.
use saphir.Base.{
  [], ℕ, ◌*◌, ◌≡◌, ◌<◌, refl, sym, ap, ok-injective, false, none, some, if◌then◌else◌, Result, ok,
  arith, take, drop, length,
}
use saphir.Base.Dict.{get}
use saphir.Text.{Str, codes}
use saphir.File.Reader.{
  IoError, ready, SaphirFile, Reads, IsReader, new_cursor, File, Cursor, read_file_cursor,
  seek_cursor, read_cursor,
}
use saphir.File.Stream.{FileStream, new_stream}
use saphir.File.Compression.{
  gzip, compress_file, encode, choose_encoder, write_all, finish, match_polled,
}
use saphir.File.Cache.Entries.{cache_key, same_key}
use saphir.File.Cache.{
  CacheInner, FileCache, Shared, shared_file, drop_file, new_cacher, get_cached, caching,
}
use saphir.File.Cache.Opening.{open_file, open_source, compress_source, has_room}
use saphir.File.Cache.Reader.{shared_law, shared_file-IsReader, read_file_cursor-IsReader}
use saphir.File.Cache.Holds.{IsConsistent}
use saphir.File.Cache.Opens.{Serves, open_file-Serves}
use saphir.File.Cache.Saved.{reads, drop_file-reads}
use saphir.Tests.Streams.{letters, plain, plain_Decodes}

-- A disk whose files are in memory
abbrev disk_law : Reads (File Cursor)
disk_law = record { IsSound = λ f. Unit; left = λ f. drop f.inner.position f.inner.bytes }

abbrev disk : SaphirFile (File Cursor)
disk = record {
  poll_read = λ size f.
      let (inner, found) = read_cursor size f.inner in
      (record f { inner = inner }, ready (ok found));
  seek = λ pos f.
      let (inner, result) = seek_cursor pos f.inner in (record f { inner = inner }, result);
  get_path = λ f. f.path;
  get_mime = λ f. f.mime;
  get_size = λ f. length f.inner.bytes;
}

abbrev letters_path : Str
letters_path = codes "/www/letters.txt"

abbrev open_letters : Str → Result (File Cursor) IoError
open_letters path = ok (record {
  inner = record { bytes = letters; position = 0 };
  path = letters_path;
  mime = none;
  seek_has_started = false;
})

disk-IsReader : (size : ℕ) → 0 < size → IsReader disk size disk_law
unfolding read_cursor read_file_cursor
disk-IsReader size h f s =
    read_file_cursor-IsReader size h
      (record { inner = f.inner; mime = none; path = f.path; size = 0 }) tt

abbrev empty_cache : CacheInner
empty_cache = record { cache = []; size = 0 }

empty_cache-IsConsistent : IsConsistent plain_Decodes.decode (λ path. letters) empty_cache
unfolding get
empty_cache-IsConsistent key bytes e = absurd cc

shared_file-IsReader_example : IsReader (shared_file disk) 65534 (shared_law disk_law 65534)
shared_file-IsReader_example =
    shared_file-IsReader disk_law 65534 disk (omega arith) (disk-IsReader 65534 (omega arith))

abbrev limits : FileCache
limits = record { max_file_size = 10; max_capacity = 100 }

letters_left :
    (f : File Cursor)
    → record {
      inner = record { bytes = letters; position = 0 };
      path = letters_path;
      mime = none;
      seek_has_started = false;
    }
      ≡ f
    → Unit {0} × (drop f.inner.position f.inner.bytes ≡ letters)
letters_left f e = (tt, ap (λ (x : File Cursor). drop x.inner.position x.inner.bytes) (sym e))

abbrev opened : FileStream (Shared Cursor)
opened = new_stream (record {
  file = caching (new_cacher (letters_path, gzip) (new_cursor letters none letters_path));
  store = empty_cache;
  waits = 0;
})

open_file-Serves_example :
    Serves disk disk_law plain plain_Decodes open_letters (λ path. letters) gzip letters_path opened
unfolding open_file open_source compress_source get_cached get compress_file encode match_polled
    choose_encoder write_all finish read_cursor new_cursor has_room
open_file-Serves_example =
    open_file-Serves disk disk_law plain plain_Decodes open_letters (λ path. letters) 3 0 limits
      empty_cache letters_path gzip opened (disk-IsReader 65534 (omega arith))
      (λ path f e. letters_left f (ok-injective e)) empty_cache-IsConsistent refl

drop_file-reads_example :
    get
      (letters_path, gzip)
      (drop_file {T = Cursor}
        (caching
          (reads 2 2 (new_cacher (letters_path, gzip) (new_cursor letters none letters_path))))
        empty_cache).cache
    ≡ (if same_key (letters_path, gzip) (letters_path, gzip)
        then some (take (2 * 2) letters)
        else get (letters_path, gzip) empty_cache.cache)
drop_file-reads_example =
    drop_file-reads Cursor (letters_path, gzip) (letters_path, gzip) letters none letters_path 2 2
      empty_cache
