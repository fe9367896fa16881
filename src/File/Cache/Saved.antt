-- ===== src/File/Cache/Saved.antt =====
-- What a file leaves in the cache when it is dropped.
use saphir.Base.{
  ℕ, zero, suc, ◌+◌, ◌*◌, ◌≡◌, refl, sym, ap, ◌∙◌, List, [], ◌∷◌, ◌++◌, Option, some, if◌then◌else◌,
  length, take, drop, arith,
}
use native.Mathlib.Nat.{suc-mul}
use saphir.Text.{Str}
use saphir.Base.Dict.{get, get-insert}
use saphir.File.Reader.{new_cursor}
use saphir.File.Cache.Entries.{cache_key, CacheKey, same_key}
use saphir.File.Cache.{CacheInner, caching, insert_cached, drop_file, new_cacher}
use saphir.File.Cache.Reader.{drop-drop}
use saphir.File.Cache.{FileCacher, read_cacher}
use saphir.File.Reader.{read_file_cursor, read_cursor}

-- The file after a number of reads of one size
abbrev pub reads : ℕ → ℕ → FileCacher → FileCacher
reads zero size f = f
reads (suc n) size f = reads n size (read_cacher size f).0

take-nil : (n : ℕ) → ◌≡◌ {A = List ℕ} (take n []) []
take-nil zero = refl
take-nil (suc n) = refl

take-more : (k n : ℕ) (xs : List ℕ) → take k xs ++ take n (drop k xs) ≡ take (k + n) xs
take-more zero n xs = let same : 0 + n ≡ n = omega arith in rw same refl
take-more (suc k) n [] = let same : suc k + n ≡ suc (k + n) = omega arith in rw same (take-nil n)
take-more (suc k) n (x ∷ xs) =
    let same : suc k + n ≡ suc (k + n) = omega arith in rw (same, take-more k n xs) refl

drop-length-take : (n : ℕ) (xs : List ℕ) → drop (length (take n xs)) xs ≡ drop n xs
drop-length-take zero xs = refl
drop-length-take (suc n) [] = refl
drop-length-take (suc n) (x ∷ xs) = drop-length-take n xs

-- The first bytes have been read, and are in the buffer.
Copied : List ℕ → ℕ → FileCacher → Type 0
Copied bytes k f =
    (f.buff ≡ take k bytes) × (drop f.inner.inner.position f.inner.inner.bytes ≡ drop k bytes)

read_cacher-Copied :
    (bytes : List ℕ) (k size : ℕ) (f : FileCacher)
    → Copied bytes k f
    → Copied bytes (k + size) (read_cacher size f).0 × ((read_cacher size f).0.key ≡ f.key)
unfolding Copied read_cacher read_file_cursor read_cursor
read_cacher-Copied bytes k size f (buff, left) = (
  (
    rw (buff, left) (take-more k size bytes),
    sym (
          drop-drop f.inner.inner.position
            (length (take size (drop f.inner.inner.position f.inner.inner.bytes)))
            f.inner.inner.bytes)
        ∙ (drop-length-take size (drop f.inner.inner.position f.inner.inner.bytes)
            ∙ (ap (drop size) left ∙ drop-drop k size bytes)),
  ),
  refl,
)

reads-Copied :
    (n : ℕ) (bytes : List ℕ) (k size : ℕ) (f : FileCacher)
    → Copied bytes k f
    → Copied bytes (k + n * size) (reads n size f) × ((reads n size f).key ≡ f.key)
reads-Copied zero bytes k size f copied =
    let same : k + 0 * size ≡ k = omega arith in rw same (copied, refl)
reads-Copied (suc n) bytes k size f copied =
    let (step, key) = read_cacher-Copied bytes k size f copied in
    let (steps, keys) = reads-Copied n bytes (k + size) size (read_cacher size f).0 step in
    let same : k + suc n * size ≡ k + size + n * size = omega (arith, suc-mul n size) in
    rw same (steps, keys ∙ key)

-- A file that is dropped after a number of reads leaves in the cache exactly the bytes that were read, be
-- it all of them or not, and every other entry as it was.
pub drop_file-reads :
    (T : Type 0)
    → (key other : CacheKey) (bytes : List ℕ) (mime : Option Str) (path : Str) (n size : ℕ)
      (store : CacheInner)
    → get other
        (drop_file {T = T}
          (caching (reads n size (new_cacher key (new_cursor bytes mime path))))
          store).cache
      ≡ (if same_key key other then some (take (n * size) bytes) else get other store.cache)
unfolding drop_file insert_cached Copied new_cacher new_cursor
drop_file-reads T key other bytes mime path n size store =
    let (copied, same) =
      reads-Copied n bytes 0 size (new_cacher key (new_cursor bytes mime path)) (refl, refl) in
    let none_before : 0 + n * size ≡ n * size = omega arith in
    let buff : (reads n size (new_cacher key (new_cursor bytes mime path))).buff
        ≡ take (n * size) bytes =
      copied.0 ∙ ap (λ k. take k bytes) none_before in
    rw (same, buff) (get-insert key other (take (n * size) bytes) store.cache)
