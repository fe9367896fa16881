-- ===== src/File/Cache/Holds.antt =====
-- The files that `open_file` starts from hold the content of their path.
use saphir.Base.{ℕ, ◌≡◌, refl, sym, ◌∙◌, List, Option, none, some, Result, ok, err}
use mathlib.Core.Path.{subst}
use saphir.Text.{Str}
use saphir.Base.Dict.{get}
use saphir.File.Reader.{IoError, SaphirFile, Reads, File}
use saphir.File.Stream.{max_buffer}
use saphir.File.Compression.{Compression, raw, Encoders}
use saphir.File.Compression.Lossless.{Decodes}
use saphir.File.Cache.Entries.{cache_key, CacheKey}
use saphir.File.Cache.Reader.{DynSound, dyn_left}
use saphir.File.Cache.{
  CacheInner, CachedFile, DynFile, on_disk, from_cache, get_cached, cached_file, current_read,
}
use saphir.File.Cache.Opening.{open_source}

-- Each entry decodes to the content of its path.
abbrev pub IsConsistent : (Compression → List ℕ → List ℕ) → (Str → List ℕ) → CacheInner → Type 0
IsConsistent decode content store =
    (key : CacheKey) (bytes : List ℕ)
    → get key store.cache ≡ some bytes
    → decode key.1 bytes ≡ content key.0

module _ {T G D B : Type 0} (disk : SaphirFile (File T)) (disk_law : Reads (File T))
    (encoders : Encoders G D B) (laws : Decodes encoders)
    (open_disk : Str → Result (File T) IoError) (content : Str → List ℕ) where
  -- A file on the disk that is opened has the whole content of its path left.
  abbrev pub OpensWhole : Type 0
  OpensWhole =
      (path : Str) (f : File T)
      → open_disk path ≡ ok f
      → disk_law.IsSound f × (disk_law.left f ≡ content path)

  unfoldable pub Holds : CacheInner → DynFile T → List ℕ → Type 0
  Holds store f bytes =
      DynSound disk_law max_buffer store f × (dyn_left disk_law max_buffer store f ≡ bytes)

  pub get_cached-Holds :
      (store : CacheInner) (key : CacheKey) (f : CachedFile)
      → get_cached store key ≡ some f
      → (bytes : List ℕ) × (get key store.cache ≡ some bytes) × Holds store (from_cache f) bytes
  unfolding get_cached current_read Holds
  get_cached-Holds store key f e = from_get (get key store.cache) refl e
    where
      from_get :
          (o : Option (List ℕ))
          → get key store.cache ≡ o
          → ◌≡◌ {A = Option CachedFile}
              (elim o [ none ↦ none | some file ↦ some (cached_file key file) ])
              (some f)
          → (bytes : List ℕ) × (get key store.cache ≡ some bytes) × Holds store (from_cache f) bytes
      from_get none h k = absurd cc
      from_get (some bytes) h k =
          let same : cached_file key bytes ≡ f = cc in
          (
            bytes,
            h,
            subst (λ x. Holds store (from_cache x) bytes) same ((rw h refl, refl), rw h refl),
          )

  pub open_source-Holds :
      (store : CacheInner) (path : Str) (f : DynFile T)
      → OpensWhole
      → IsConsistent laws.decode content store
      → open_source disk encoders open_disk store path ≡ ok f
      → Holds store f (content path)
  unfolding open_source Holds
  open_source-Holds store path f opens consistent e =
      from_cached (get_cached store (path, raw)) refl (open_disk path) refl e
    where
      from_cached :
          (o : Option CachedFile)
          → get_cached store (path, raw) ≡ o
          → (d : Result (File T) IoError) → open_disk path ≡ d
          → ◌≡◌ {A = Result (DynFile T) IoError}
              (elim o [
                | some file ↦ ok (from_cache file)
                | none ↦ elim d [ ok file ↦ ok (on_disk file) | err x ↦ err x ]
              ])
              (ok f)
          → Holds store f (content path)
      from_cached (some file) h d k e =
          let (bytes, found, holds) = get_cached-Holds store (path, raw) file h in
          let same : from_cache file ≡ f = cc in
          subst (λ x. Holds store x (content path)) same
            (holds.0, holds.1 ∙ (sym (laws.raw_same bytes) ∙ consistent (path, raw) bytes found))
      from_cached none h (err x) k e = absurd cc
      from_cached none h (ok file) k e =
          let same : on_disk file ≡ f = cc in
          subst (λ x. Holds store x (content path)) same (opens path file k)
