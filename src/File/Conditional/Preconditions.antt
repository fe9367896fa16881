-- ===== src/File/Conditional/Preconditions.antt =====
-- What the conditional headers decide.
use saphir.Base.{
  ℕ, ◌≡◌, refl, ap, Bool, true, false, not, ◌||◌, List, [], ◌∷◌, Option, none, some, leb, any, all,
  arith,
}
use saphir.Base.Dict.{get}
use saphir.Text.{Str, codes, str_eq, split, trim, starts_with}
use saphir.Text.Laws.{str_key}
use saphir.Http.{Request}
use saphir.File.Etag.{EntityTag, parse_tag, strong_eq, weak_eq, is_weak}
use saphir.File.Etag.Laws.{strong_eq_iff}
use saphir.File.Conditional.{
  check_if_match, check_if_none_match, check_if_unmodified_since, none_match_fails, header,
  date_header, text_header, text_or_empty, unmodified_since_fails, is_precondition_failed, is_fresh,
  is_range_fresh,
}

any-all :
    {A : Type 0} (p q : A → Bool) (h : (x : A) → p x ≡ true → q x ≡ false) (xs : List A)
    → any p xs ≡ true
    → all q xs ≡ false
any-all p q h [] e = absurd (cc e)
any-all p q h (x ∷ xs) e = ground (arith, h x, any-all p q h xs)

weak_eq_of_strong_eq : (a b : EntityTag) → strong_eq a b ≡ true → weak_eq a b ≡ true
unfolding strong_eq weak_eq
weak_eq_of_strong_eq a b e = ground arith

-- What `If-Match` accepts, `If-None-Match` refuses.
pub check_if_match-check_if_none_match :
    (etag : EntityTag) (tags : Str)
    → check_if_match etag tags ≡ true
    → check_if_none_match etag tags ≡ false
unfolding check_if_match check_if_none_match
check_if_match-check_if_none_match etag tags e = ground (
  arith,
  any-all (λ string. strong_eq etag (parse_tag (trim string)))
      (λ string. not (weak_eq etag (parse_tag (trim string))))
      (λ string h. ap not (weak_eq_of_strong_eq etag (parse_tag (trim string)) h)) (split 44 tags),
)

module _ (to_str : Str → Option Str) (date_from_http_str : Str → Option ℕ) where
  -- `If-Match` is there and does not accept the tag.
  abbrev pub match_refuses : Request → EntityTag → Bool
  match_refuses req etag = elim (header req (codes "if-match")) [
    | none ↦ false
    | some value ↦ not (check_if_match etag (text_or_empty to_str date_from_http_str value))
  ]

  -- `If-Unmodified-Since` is a date before the last change.
  abbrev pub since_refuses : Request → ℕ → Bool
  since_refuses req last_modified =
      elim (date_header to_str date_from_http_str req (codes "if-unmodified-since")) [
        | none ↦ false
        | some since ↦ not (leb last_modified since)
      ]

  -- The preconditions fail exactly if one of the three does.
  pub is_precondition_failed_lem :
      (req : Request) (etag : EntityTag) (last_modified : ℕ)
      → is_precondition_failed to_str date_from_http_str req etag last_modified
        ≡ (match_refuses req etag || since_refuses req last_modified || none_match_fails req)
  unfolding is_precondition_failed unmodified_since_fails check_if_unmodified_since
  is_precondition_failed_lem req etag last_modified = ground arith

  -- A header `If-Modified-Since` before the others does not change the freshness.
  pub is_fresh-if_modified_since :
      (req : Request) (etag : EntityTag) (last_modified : ℕ) (since : Str)
      → is_fresh to_str date_from_http_str
          (record req { headers = (codes "if-modified-since", since) ∷ req.headers })
          etag
          last_modified
        ≡ is_fresh to_str date_from_http_str req etag last_modified
  unfolding is_fresh get str_eq
  is_fresh-if_modified_since req etag last_modified since = refl

  -- With an `If-Range` that is a tag, a range is fresh only for a strong tag that is equal to it.
  pub is_range_fresh-strong :
      (parse_date : Str → Option ℕ) (req : Request) (etag : EntityTag) (last_modified : ℕ)
      (if_range : Str)
      → text_header to_str date_from_http_str req (codes "if-range") ≡ some if_range
      → starts_with (codes "\"") if_range || starts_with (codes "W/\"") if_range ≡ true
      → is_range_fresh to_str date_from_http_str parse_date req etag last_modified ≡ true
      → (etag ≡ parse_tag if_range) × (is_weak etag ≡ false)
  unfolding is_range_fresh
  is_range_fresh-strong parse_date req etag last_modified if_range e tag fresh =
      let (equal, is_strong) = (strong_eq_iff etag (parse_tag if_range)).0 (ground arith) in
      (equal, is_strong)
