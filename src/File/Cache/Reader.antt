-- ===== src/File/Cache/Reader.antt =====
-- Every file that the cache hands out reads its bytes in order, to the last.
use saphir.Base.{
  ℕ, zero, suc, ◌+◌, ◌-◌, ◌≡◌, ◌<◌, refl, sym, ap, ◌∙◌, Bool, true, false, ◌==◌, List, [], ◌∷◌,
  ◌++◌, some, length, take, drop, inl, inr, Result, ok, err, Option-cases, is_some, unwrap_or,
  arith,
}
use mathlib.Core.Path.{subst}
use saphir.Base.Dict.{get}
use saphir.File.Reader.{
  IoError, Poll, ready, pending, SaphirFile, Reads, Answers, IsReader, read_cursor, FileCursor,
  read_file_cursor, File, cursor_file,
}
use saphir.File.Stream.Prompt.{IsPrompt}
use saphir.File.Cache.Entries.{cache_key, CacheKey}
use saphir.File.Cache.{
  CacheInner, CachedFile, FileCacher, DynFile, on_disk, in_memory, from_cache, caching, Shared,
  read_async, deliver, current_read, read_cached, read_cacher, read_dyn, shared_file,
}

drop-nil : (n : ℕ) → ◌≡◌ {A = List ℕ} (drop n []) []
drop-nil zero = refl
drop-nil (suc n) = refl

pub drop-drop : (m n : ℕ) (xs : List ℕ) → drop n (drop m xs) ≡ drop (m + n) xs
drop-drop zero n xs = let same : 0 + n ≡ n = omega arith in rw same refl
drop-drop (suc m) n [] = let same : suc m + n ≡ suc (m + n) = omega arith in rw same (drop-nil n)
drop-drop (suc m) n (x ∷ xs) =
    let same : suc m + n ≡ suc (m + n) = omega arith in rw (same, drop-drop m n xs) refl

take-drop : (n : ℕ) (xs : List ℕ) → take n xs ++ drop (length (take n xs)) xs ≡ xs
take-drop zero xs = refl
take-drop (suc n) [] = refl
take-drop (suc n) (x ∷ xs) = ap (λ r. x ∷ r) (take-drop n xs)

take-nil-inv : (n : ℕ) (xs : List ℕ) → 0 < n → take n xs ≡ [] → xs ≡ []
take-nil-inv zero xs h e = absurd (omega arith)
take-nil-inv (suc n) [] h e = refl
take-nil-inv (suc n) (x ∷ xs) h e = absurd cc

take-take : (n : ℕ) (xs : List ℕ) → take n (take n xs) ≡ take n xs
take-take zero xs = refl
take-take (suc n) [] = refl
take-take (suc n) (x ∷ xs) = ap (λ r. x ∷ r) (take-take n xs)

-- A read takes the front of what is left after the position.
read-left :
    (size position : ℕ) (bytes : List ℕ)
    → drop position bytes
      ≡ take size (drop position bytes)
        ++ drop (position + length (take size (drop position bytes))) bytes
read-left size position bytes =
    rw (sym (drop-drop position (length (take size (drop position bytes))) bytes))
      (sym (take-drop size (drop position bytes)))

abbrev pub cursor_law : Reads FileCursor
cursor_law = record { IsSound = λ f. Unit; left = λ f. drop f.inner.position f.inner.bytes }

pub read_file_cursor-IsReader : (size : ℕ) → 0 < size → IsReader cursor_file size cursor_law
unfolding read_file_cursor read_cursor
read_file_cursor-IsReader size h f s = (
  tt,
  read-left size f.inner.position f.inner.bytes,
  take-nil-inv size (drop f.inner.position f.inner.bytes) h,
)

pub read_file_cursor-IsPrompt : (size : ℕ) → IsPrompt cursor_file size cursor_law
unfolding read_file_cursor
read_file_cursor-IsPrompt size f s = (_, _, refl)

abbrev pub entry : CacheInner → CacheKey → List ℕ
entry store key = unwrap_or (get key store.cache) []

module _ {T : Type 0} (disk_law : Reads (File T)) (size : ℕ) where
  -- A cached file has its entry in the cache, and a read that is at work is for its position and size.
  abbrev pub DynSound : CacheInner → DynFile T → Type 0
  DynSound store (on_disk f) = disk_law.IsSound f
  DynSound store (in_memory f) = Unit
  DynSound store (from_cache f) =
      (is_some (get f.key store.cache) ≡ true) × (current_read size f ≡ (f.position, size))
  DynSound store (caching f) = Unit

  abbrev pub dyn_left : CacheInner → DynFile T → List ℕ
  dyn_left store (on_disk f) = disk_law.left f
  dyn_left store (in_memory f) = cursor_law.left f
  dyn_left store (from_cache f) = drop f.position (entry store f.key)
  dyn_left store (caching f) = cursor_law.left f.inner

  abbrev pub store_law : CacheInner → Reads (DynFile T)
  store_law store = record { IsSound = DynSound store; left = dyn_left store }

  abbrev pub shared_law : Reads (Shared T)
  shared_law = record {
    IsSound = λ r. DynSound r.store r.file;
    left = λ r. dyn_left r.store r.file;
  }

  -- The answers of the file inside are those of the whole.
  on_disk-Answers :
      (store : CacheInner) (f : File T) (polled : File T × Poll (Result (List ℕ) IoError))
      → Answers disk_law f polled
      → Answers (store_law store) (on_disk f) (on_disk polled.0, polled.1)
  on_disk-Answers store f (next, ready (ok found)) answers = answers
  on_disk-Answers store f (next, ready (err e)) answers = tt
  on_disk-Answers store f (next, pending) answers = answers

  shared-Answers :
      (r : Shared T) (polled : DynFile T × Poll (Result (List ℕ) IoError))
      → Answers (store_law r.store) r.file polled
      → Answers shared_law r (record r { file = polled.0; waits = r.waits - 1 }, polled.1)
  shared-Answers r (next, ready (ok found)) answers = answers
  shared-Answers r (next, ready (err e)) answers = tt
  shared-Answers r (next, pending) answers = answers

  caching-Answers :
      (store : CacheInner) (f : FileCacher)
      → 0 < size
      → Answers
          (store_law store)
          (caching f)
          (caching (read_cacher size f).0, (read_cacher size f).1)
  unfolding read_cacher read_file_cursor read_cursor
  caching-Answers store f h = (
    tt,
    read-left size f.inner.inner.position f.inner.inner.bytes,
    take-nil-inv size (drop f.inner.inner.position f.inner.inner.bytes) h,
  )

  deliver-Answers :
      (store : CacheInner) (f : CachedFile) (bytes found : List ℕ)
      → 0 < size
      → get f.key store.cache ≡ some bytes
      → found ≡ take size (drop f.position bytes)
      → Answers
          (store_law store)
          (from_cache f)
          (from_cache (deliver size f (ok found)).0, (deliver size f (ok found)).1)
  unfolding deliver current_read
  deliver-Answers store f bytes [] h e taken =
      ((rw e refl, refl), refl, λ _. rw e (take-nil-inv size (drop f.position bytes) h (sym taken)))
  deliver-Answers store f bytes (x ∷ xs) h e taken =
      let again : take size (x ∷ xs) ≡ x ∷ xs =
        ap (take size) taken ∙ (take-take size (drop f.position bytes) ∙ sym taken) in
      (
        (rw e refl, refl),
        rw (e, again)
            (subst
              (λ found. drop f.position bytes ≡ found ++ drop (f.position + length found) bytes)
              (sym taken) (read-left size f.position bytes)),
        λ none_read. absurd (cc),
      )

  read_async-found :
      (key : CacheKey) (store : CacheInner) (position len : ℕ) {bytes : List ℕ}
      → get key store.cache ≡ some bytes
      → read_async key store position len ≡ ok (take len (drop position bytes))
  unfolding read_async read_cursor
  read_async-found key store position len e = rw (e, read_async) refl

  read_cached-found :
      (store : CacheInner) (f : CachedFile) {bytes : List ℕ}
      → get f.key store.cache ≡ some bytes
      → current_read size f ≡ (f.position, size)
      → read_cached true store size f ≡ deliver size f (ok (take size (drop f.position bytes)))
  unfolding read_cached
  read_cached-found store f e at = rw (at, read_async-found f.key store f.position size e) refl

  waiting-Answers :
      (store : CacheInner) (f : CachedFile)
      → is_some (get f.key store.cache) ≡ true
      → current_read size f ≡ (f.position, size)
      → Answers
          (store_law store)
          (from_cache f)
          (from_cache (read_cached false store size f).0, (read_cached false store size f).1)
  unfolding read_cached current_read
  waiting-Answers store f found at = ((found, at), refl)

  from_cache-Answers :
      (free : Bool) (store : CacheInner) (f : CachedFile)
      → 0 < size
      → DynSound store (from_cache f)
      → Answers
          (store_law store)
          (from_cache f)
          (from_cache (read_cached free store size f).0, (read_cached free store size f).1)
  from_cache-Answers false store f h (found, at) = waiting-Answers store f found at
  from_cache-Answers true store f h (found, at) = elim (Option-cases (get f.key store.cache)) [
    | inl missing ↦ absurd (ground arith)
    | inr (bytes, e) ↦
        subst (λ p. Answers (store_law store) (from_cache f) (from_cache p.0, p.1))
          (sym (read_cached-found store f e at))
          (deliver-Answers store f bytes (take size (drop f.position bytes)) h e refl)
  ]

  dyn-Answers :
      (disk : SaphirFile (File T)) (waits : ℕ) (store : CacheInner) (f : DynFile T)
      → 0 < size
      → IsReader disk size disk_law
      → DynSound store f
      → Answers (store_law store) f (read_dyn disk waits size store f)
  dyn-Answers disk waits store (on_disk f) h reads s =
      on_disk-Answers store f (disk.poll_read size f) (reads f s)
  dyn-Answers disk waits store (in_memory f) h reads s = read_file_cursor-IsReader size h f tt
  dyn-Answers disk waits store (from_cache f) h reads s =
      from_cache-Answers (waits == 0) store f h s
  dyn-Answers disk waits store (caching f) h reads s = caching-Answers store f h

  -- Whatever kind of file it is, a poll answers with the next bytes of what it has left, in order,
  -- and with none only at the end; a poll that waits loses nothing.
  pub shared_file-IsReader :
      (disk : SaphirFile (File T))
      → 0 < size
      → IsReader disk size disk_law
      → IsReader (shared_file disk) size shared_law
  shared_file-IsReader disk h reads r s =
      shared-Answers r (read_dyn disk r.waits size r.store r.file)
        (dyn-Answers disk r.waits r.store r.file h reads s)
