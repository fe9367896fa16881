-- ===== src/File/Cache/Entries.antt =====
-- The keys of the cache: a path and a compression.
use saphir.Base.{
  ℕ, ◌≡◌, ◌↔◌, refl, sym, ◌∙◌, ap, ==_refl, Bool, true, ◌&&◌, ◌==◌, &&-eq-true, ==_iff, zero, suc,
}
use saphir.Base.Dict.{Key}
use saphir.Text.{Str, str_eq}
use saphir.Text.Laws.{str_key, str_eq_iff}
use saphir.File.Compression.{Compression, raw, deflate, gzip, brotli, rank}

abbrev pub CacheKey : Type 0
CacheKey = Str × Compression

-- The derived `PartialEq`
abbrev pub same_key : CacheKey → CacheKey → Bool
same_key (path, compression) (other_path, other) =
    str_eq path other_path && rank compression == rank other

abbrev of_rank : ℕ → Compression
of_rank zero = raw
of_rank (suc zero) = deflate
of_rank (suc (suc zero)) = gzip
of_rank (suc (suc (suc _))) = brotli

of_rank-rank : (c : Compression) → of_rank (rank c) ≡ c
unfolding rank
of_rank-rank raw = refl
of_rank-rank deflate = refl
of_rank-rank gzip = refl
of_rank-rank brotli = refl

pub same_key_iff : (a b : CacheKey) → (same_key a b ≡ true) ↔ (a ≡ b)
same_key_iff (path, c) (other_path, other) = (to_same, λ e. from_same e)
  where
    to_same :
        same_key (path, c) (other_path, other) ≡ true
        → ◌≡◌ {A = CacheKey} (path, c) (other_path, other)
    to_same h =
        let (paths, ranks) = &&-eq-true (str_eq path other_path) (rank c == rank other) h in
        let same_path : path ≡ other_path = (str_eq_iff path other_path).0 paths in
        let same_rank : rank c ≡ rank other = (==_iff (rank c) (rank other)).0 ranks in
        let same : c ≡ other = sym (of_rank-rank c) ∙ (ap of_rank same_rank ∙ of_rank-rank other) in
        rw (same_path, same) refl

    from_same :
        ◌≡◌ {A = CacheKey} (path, c) (other_path, other)
        → same_key (path, c) (other_path, other) ≡ true
    from_same e =
        let same_path : path ≡ other_path = cc in
        let same : c ≡ other = cc in
        let paths : str_eq path other_path ≡ true = (str_eq_iff path other_path).1 same_path in
        rw (same, ==_refl (rank other), paths) refl

instance abbrev pub cache_key : Key CacheKey
cache_key = record { beq = same_key; beq_iff = same_key_iff }
