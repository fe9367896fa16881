-- ===== src/File/Conditional.antt =====
-- saphir/src/file/conditional_request.rs, and `is_range_fresh` of range_requests.rs. A time is its
-- seconds since the epoch, as `timestamp` gives them; the dates of headers are parsed by functions
-- that are parameters.
pub mod Preconditions
use saphir.Base.{
  ℕ, Bool, true, false, not, ◌&&◌, ◌||◌, [], Option, none, some, if◌then◌else◌, leb, ◌==◌, is_some,
  any, all,
}
use saphir.Base.Dict.{get}
use saphir.Text.{Str, codes, str_eq, split, trim, starts_with}
use saphir.Text.Laws.{str_key}
use saphir.Http.{Method, Request}
use saphir.File.Etag.{EntityTag, parse_tag, strong_eq, weak_eq}

unfoldable pub check_if_match : EntityTag → Str → Bool
check_if_match etag if_match =
    str_eq (trim if_match) (codes "*")
    || any (λ string. strong_eq etag (parse_tag (trim string))) (split 44 if_match)

unfoldable pub check_if_none_match : EntityTag → Str → Bool
check_if_none_match etag if_none_match =
    not (str_eq (trim if_none_match) (codes "*"))
    && all (λ string. not (weak_eq etag (parse_tag (trim string)))) (split 44 if_none_match)

unfoldable pub check_if_unmodified_since : ℕ → ℕ → Bool
check_if_unmodified_since last_modified since = leb last_modified since

unfoldable pub check_if_modified_since : ℕ → ℕ → Bool
unfolding check_if_unmodified_since
check_if_modified_since last_modified since = not (check_if_unmodified_since last_modified since)

unfoldable pub is_method_get_head : Method → Bool
is_method_get_head method = str_eq method (codes "GET") || str_eq method (codes "HEAD")

abbrev pub header : Request → Str → Option Str
header req name = get name req.headers

-- Step 3: `If-None-Match` on a method that is not safe
unfoldable pub none_match_fails : Request → Bool
none_match_fails req =
    is_some (header req (codes "if-none-match")) && not (is_method_get_head req.method)

-- `to_str` of a header, and the parsed date of its text
module _ (to_str : Str → Option Str) (date_from_http_str : Str → Option ℕ) where
  -- `get(name).and_then(to_str).and_then(date_from_http_str)`
  abbrev pub date_header : Request → Str → Option ℕ
  date_header req name = elim (header req name) [
    | none ↦ none
    | some value ↦ elim (to_str value) [ none ↦ none | some text ↦ date_from_http_str text ]
  ]

  -- `get(name).map(to_str)` where it is `Some(Ok(_))`
  abbrev pub text_header : Request → Str → Option Str
  text_header req name = elim (header req name) [ none ↦ none | some value ↦ to_str value ]

  -- `to_str().unwrap_or_default()`
  abbrev pub text_or_empty : Str → Str
  text_or_empty value = elim (to_str value) [ none ↦ [] | some text ↦ text ]

  -- Step 2, and the step after it
  unfoldable pub unmodified_since_fails : Request → ℕ → Bool
  unfolding none_match_fails
  unmodified_since_fails req last_modified = elim (date_header req (codes "if-unmodified-since")) [
    | none ↦ none_match_fails req
    | some since ↦
        if check_if_unmodified_since last_modified since
        then if none_match_fails req then true else none_match_fails req
        else true
  ]

  unfoldable pub is_precondition_failed : Request → EntityTag → ℕ → Bool
  unfolding none_match_fails unmodified_since_fails
  is_precondition_failed req etag last_modified = elim (header req (codes "if-match")) [
    | none ↦ unmodified_since_fails req last_modified
    | some if_match ↦
        if check_if_match etag (text_or_empty if_match)
        then if none_match_fails req then true else unmodified_since_fails req last_modified
        else true
  ]

  unfoldable pub is_fresh : Request → EntityTag → ℕ → Bool
  is_fresh req etag last_modified = elim (text_header req (codes "if-none-match")) [
    | some if_none_match ↦ not (check_if_none_match etag if_none_match)
    | none ↦ elim (date_header req (codes "if-unmodified-since")) [
      | some since ↦ not (check_if_modified_since last_modified since)
      | none ↦ false
    ]
  ]

  -- range_requests.rs. `parse_date` reads a date as RFC 2822 has it, as `unix_timestamp() as u64`.
  unfoldable pub is_range_fresh : (Str → Option ℕ) → Request → EntityTag → ℕ → Bool
  is_range_fresh parse_date req etag last_modified =
      if not (is_some (header req (codes "range")))
      then false
      else elim (text_header req (codes "if-range")) [
        | none ↦ true
        | some if_range ↦
            if starts_with (codes "\"") if_range || starts_with (codes "W/\"") if_range
            then strong_eq etag (parse_tag if_range)
            else elim (parse_date if_range) [ some date ↦ last_modified == date | none ↦ true ]
      ]
