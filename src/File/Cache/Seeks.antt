-- ===== src/File/Cache/Seeks.antt =====
-- Seeking in a cached file, against seeking in its bytes.
use saphir.Base.{ℕ, ◌+◌, ◌≡◌, ◌<◌, ◌≤◌, List, length, err, arith}
use saphir.Text.Decimal.{u64_limit}
use saphir.File.Reader.{
  SeekFrom, start, current, finish, forward, back_suc, seek_cursor, moved, invalid_input,
}
use saphir.File.Cache.{CachedFile, seek_cached}

-- A start inside the file, and a position that a `u64` holds
abbrev pub IsInside : SeekFrom → CachedFile → Type 0
IsInside (start i) f = i < f.size
IsInside (current (forward i)) f = f.position + i < u64_limit
IsInside (current (back_suc i)) f = f.position < u64_limit
IsInside (finish offset) f = Unit

-- A cached file is moved to the place that a cursor over its bytes is moved to, and refuses what the
-- cursor refuses.
pub seek_cached-seek_cursor :
    (pos : SeekFrom) (f : CachedFile) (bytes : List ℕ)
    → length bytes ≡ f.size
    → IsInside pos f
    → ((seek_cached pos f).1
        ≡ (seek_cursor pos (record { bytes = bytes; position = f.position })).1)
      × ((seek_cached pos f).0.position
          ≡ (seek_cursor pos (record { bytes = bytes; position = f.position })).0.position)
unfolding seek_cached seek_cursor moved
seek_cached-seek_cursor (start i) f bytes size h = ground arith
seek_cached-seek_cursor (current (forward i)) f bytes size h = ground arith
seek_cached-seek_cursor (current (back_suc i)) f bytes size h = ground arith
seek_cached-seek_cursor (finish (forward i)) f bytes size h = ground arith
seek_cached-seek_cursor (finish (back_suc i)) f bytes size h = ground arith

-- A start past the last byte is refused, where a cursor would go there.
pub seek_cached-past :
    (i : ℕ) (f : CachedFile) → f.size ≤ i → seek_cached (start i) f ≡ (f, err invalid_input)
unfolding seek_cached
seek_cached-past i f h = ground arith
