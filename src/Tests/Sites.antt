-- ===== src/Tests/Sites.antt =====
-- Responses, and the service of files.
use saphir.Base.{
  [], ℕ, ◌≡◌, ◌↔◌, refl, ◌∙◌, ok-injective, inl, inr, true, false, List, ◌∷◌, ◌++◌, none, some,
  if◌then◌else◌, ok, or_else, is_some,
}
use mathlib.Core.Path.{subst}
use saphir.Base.Dict.{get}
use saphir.Text.{
  Str, codes, str_eq, starts_with, strip_prefix, ends_with, split, push_front, split_once, trim,
  trim_start, is_whitespace,
}
use saphir.Text.Split.{join}
use saphir.Text.Decimal.{parse_u64, scan_u64, is_digit}
use saphir.File.Conditional.{
  is_precondition_failed, is_fresh, is_range_fresh, unmodified_since_fails, none_match_fails,
}
use saphir.Http.{Request}
use saphir.Response.{Builder, new_builder, status, header, body}
use saphir.Response.Status.{chosen, header-IsTracked}
use saphir.Responder.{Respond, respond_plain, respond_result}
use saphir.Responder.Statuses.{Keeps, respond_result-chosen}
use saphir.File.Range.{
  content_bytes, parse_range, parse_spec, from_comma_delimited, collect_specs, is_satisfiable_range,
  to_satisfiable_range, extract_range,
}
use saphir.File.Compression.{raw, rank}
use saphir.File.Site.{
  byte_len, file_path_from_path, skip_byte, replace_uri, after_base, components, relative_parts,
  parts, is_hidden, file_name, last_of, try_path, find_index, token_code, Disk, Site, found,
  try_all, path_is_under_base_path, join_path, path_starts_with,
}
use saphir.File.Site.Checked.{path_is_under_base_path-file_path}
use saphir.File.Service.Defaults.{new_service}
use saphir.File.Service.{
  with_content, served_range, asked_range, with_range, accepted, FileMiddleware, Meta, Opener,
  answered, serve_file, next_inner, with_headers, partial, file_tag,
}
use saphir.File.Service.Opens.{OpenedAt}
use saphir.File.Service.Decides.{serve_file-chosen, next_inner-found, next_inner-serves}

abbrev greet : Respond Unit Unit Str Unit
greet = respond_plain (codes "hello")

greet-Keeps : Keeps greet
unfolding respond_plain body
greet-Keeps b ctx tracked = header-IsTracked (codes "content-type") (codes "text/plain") b tracked

respond_result-chosen_example :
    chosen (respond_result (ok greet) new_builder tt).inner
    ≡ or_else (chosen (greet new_builder tt).inner) (some 200)
unfolding new_builder
respond_result-chosen_example =
    respond_result-chosen (ok greet) new_builder tt
      (λ r e. elim e [
        | inl same ↦ subst Keeps (ok-injective same) greet-Keeps
        | inr other ↦ absurd cc
      ])
      refl

abbrev no_disk : Disk
no_disk = record {
  is_dir = λ path. false;
  is_file = λ path. false;
  percent_decode = λ text. some text;
}

abbrev www : Site
www = record { base_path = []; www_path = codes "/www"; index_files = []; try_files = [] }

path_is_under_base_path-file_path_example :
    ((path_is_under_base_path no_disk www (codes "/etc/passwd") ≡ true)
      ↔ ((rest : List Str) × (components (codes "/etc/passwd") ≡ components www.www_path ++ rest)))
    × (path_is_under_base_path no_disk www (codes "/www/../secret") ≡ true)
unfolding skip_byte file_path_from_path after_base components join_path starts_with strip_prefix
    relative_parts parts split push_front join str_eq ends_with
path_is_under_base_path-file_path_example =
    path_is_under_base_path-file_path no_disk www (codes "/../secret") (codes "../secret")
      (codes "../secret") (codes "/www/../secret") (codes "/etc/passwd") refl refl refl refl

abbrev letters_path : Str
letters_path = codes "/www/a"

abbrev meta : Meta
meta = record {
  mtime = λ path. 1;
  size = λ path. 6;
  guess_path_mime = λ path. codes "text/plain";
  format_systemtime = λ time. codes "then";
  to_str = λ value. some value;
  date_from_http_str = λ text. none;
  parse_date = λ text. none;
}

abbrev opener : Opener ℕ Unit
opener = record {
  open_file = λ path compression. ok (9, 6);
  open_file_with_range = λ path range. ok 9;
}

abbrev some_bytes : Request
some_bytes = record {
  method = codes "GET";
  path = codes "/a";
  headers = (codes "range", codes "bytes=0-2") ∷ [];
  captures = [];
}

abbrev first_three : Builder Unit Unit ℕ
first_three =
    with_headers meta opener 0 (file_tag 1 6) raw letters_path 3
      (partial meta opener (content_bytes (some (0, 2)) (some 6)) (body 9 new_builder))

serve_three : serve_file meta opener Unit some_bytes 0 letters_path ≡ answered first_three
unfolding serve_file is_precondition_failed get str_eq is_fresh with_content served_range
    asked_range parse_range split_once from_comma_delimited collect_specs split push_front trim
    trim_start is_whitespace parse_spec parse_u64 scan_u64 is_digit is_range_fresh
    is_satisfiable_range to_satisfiable_range unmodified_since_fails none_match_fails with_range
    extract_range accepted
serve_three = refl

serve_file-chosen_example : chosen first_three.inner ≡ (
    if is_precondition_failed meta.to_str meta.date_from_http_str some_bytes (file_tag 1 6) 1
    then some 412
    else if is_fresh meta.to_str meta.date_from_http_str some_bytes (file_tag 1 6) 1
    then some 304
    else if is_some (served_range meta some_bytes (file_tag 1 6) 1 6)
    then some 206
    else none)
serve_file-chosen_example =
    serve_file-chosen meta opener Unit some_bytes 0 letters_path first_three serve_three

abbrev disk : Disk
disk = record {
  is_dir = λ path. false;
  is_file = λ path. str_eq path letters_path;
  percent_decode = λ text. some text;
}

abbrev service : FileMiddleware Unit
service = new_service (codes "") (codes "/www")

tries_letters :
    try_all disk service.site some_bytes.path service.site.try_files ≡ found letters_path
unfolding try_all new_service byte_len starts_with file_path_from_path skip_byte replace_uri
    after_base components relative_parts split push_front parts is_hidden file_name last_of
    join_path join str_eq strip_prefix try_path ends_with find_index token_code
tries_letters = refl

under_www : path_is_under_base_path disk service.site letters_path ≡ true
unfolding new_service path_is_under_base_path path_starts_with components starts_with strip_prefix
    split push_front parts relative_parts after_base str_eq
under_www = refl

answers_three : next_inner meta opener disk service some_bytes ≡ answered first_three
unfolding new_service
answers_three =
    next_inner-serves meta opener Unit disk service some_bytes letters_path tries_letters under_www
    ∙ serve_three

next_inner-found_example :
    (path : Str) × (try_all disk service.site some_bytes.path service.site.try_files ≡ found path)
    × (path_is_under_base_path disk service.site path ≡ true)
    × OpenedAt meta opener some_bytes path 9
unfolding with_headers partial header status body rank
next_inner-found_example =
    next_inner-found meta opener Unit disk service some_bytes first_three 9 answers_three refl
