-- ===== src/File/Service.antt =====
-- saphir/src/file/middleware.rs: `FileMiddleware`, its builder, and what `next_inner` does with a request.
-- The cache is an interface, the times of headers and the types of contents are parameters; a stream
-- that was opened comes with its size, and a max age is not negative. Spans of tracing are left out.
pub mod Defaults
pub mod Answers
pub mod Opens
pub mod Decides
use saphir.Base.{
  ℕ, ◌+◌, ◌-◌, Bool, false, ◌==◌, leb, List, [], ◌∷◌, ◌++◌, map, Option, none, some, if◌then◌else◌,
  unwrap_or, Result, ok, err,
}
use saphir.Base.Dict.{get}
use saphir.Text.{Str, codes, str_eq, split, trim}
use saphir.Text.Laws.{str_key}
use saphir.Text.Decimal.{print_u64}
use saphir.Http.{Request}
use saphir.Response.{Builder, new_builder, status, header, body}
use saphir.File.Etag.{EntityTag, new_tag, get_tag}
use saphir.File.Range.{
  Range, ContentRange, parse_range, print_content, is_satisfiable_range, extract_range,
}
use saphir.File.Conditional.{is_precondition_failed, is_fresh, is_range_fresh}
use saphir.File.Compression.{Compression, raw, rank, parse_compression, print_compression}
use saphir.File.Site.{Site, Disk, found, code, nothing, panicked, try_all, path_is_under_base_path}
use saphir.File.Cache.{FileCache}

pub record FileMiddleware (H : Type 0) : Type 0 where
  pub site : Site
  pub limits : FileCache
  pub file_not_found_handler : Option H
  pub max_age : ℕ

-- What the service reads of a file and of the texts of headers
pub record Meta : Type 0 where
  pub mtime : Str → ℕ
  pub size : Str → ℕ
  pub guess_path_mime : Str → Str
  pub format_systemtime : ℕ → Str
  pub to_str : Str → Option Str
  pub date_from_http_str : Str → Option ℕ
  pub parse_date : Str → Option ℕ

-- The cache of the service: `open_file` with the size of what it opens, and `open_file_with_range`
pub record Opener (S E : Type 0) : Type 0 where
  pub open_file : Str → Compression → Result (S × ℕ) E
  pub open_file_with_range : Str → ℕ × ℕ → Result S E

-- The end of `next_inner`: a response that is built, the handler called, an error, a panic
pub data Outcome (H Ext Jar S E : Type 0) : Type 0 where
  answered : Builder Ext Jar S → Outcome H Ext Jar S E
  handled : H → Outcome H Ext Jar S E
  failed : E → Outcome H Ext Jar S E
  panics : Outcome H Ext Jar S E

-- The greatest of the compressions, as `max` has it; `rank` tells two apart.
unfoldable pub max_of : List Compression → Option Compression
max_of [] = none
max_of (c ∷ cs) = elim (max_of cs) [
  | none ↦ some c
  | some m ↦ if leb (rank c) (rank m) then some m else some c
]

-- A time stamp and a size, as the entity tag has them
unfoldable pub file_tag : ℕ → ℕ → EntityTag
file_tag last_modified size =
    new_tag false (print_u64 last_modified ++ (codes "-" ++ print_u64 size))

module _ (meta : Meta) where
  -- The compression of the response
  unfoldable pub accepted : Request → Compression
  accepted req = elim (get (codes "accept-encoding") req.headers) [
    | none ↦ raw
    | some value ↦ elim (meta.to_str value) [
      | none ↦ raw
      | some text ↦
          unwrap_or (max_of (map (λ e. unwrap_or (parse_compression (trim e)) raw) (split 44 text)))
            raw
    ]
  ]

  -- The range that is asked for
  unfoldable pub asked_range : Request → Option Range
  asked_range req = elim (get (codes "range") req.headers) [
    | none ↦ none
    | some value ↦ elim (meta.to_str value) [ none ↦ none | some text ↦ parse_range text ]
  ]

  -- The content range that is served, if one is
  unfoldable pub served_range : Request → EntityTag → ℕ → ℕ → Option ContentRange
  served_range req etag last_modified size = elim (asked_range req) [
    | none ↦ none
    | some range ↦
        if is_range_fresh meta.to_str meta.date_from_http_str meta.parse_date req etag last_modified
        then is_satisfiable_range range size
        else none
  ]

abbrev pub is_head : Request → Bool
is_head req = str_eq req.method (codes "HEAD")

module _ {Ext Jar S E : Type 0} (meta : Meta) (opener : Opener S E) where
  -- The headers that every response with a file has
  unfoldable pub with_headers :
      ℕ → EntityTag → Compression → Str → ℕ → Builder Ext Jar S → Builder Ext Jar S
  with_headers max_age etag compression path size builder = header (codes "etag") (get_tag etag) (
      header (codes "cache-control") (codes "public, max-age=" ++ print_u64 max_age) (
        header (codes "content-length") (print_u64 size) (
          header (codes "content-type") (meta.guess_path_mime path) (
            header (codes "accept-ranges") (codes "bytes") (
              if rank compression == 0
              then builder
              else header (codes "content-encoding") (print_compression compression) builder)))))

  -- The header and the status of a range that is served
  unfoldable pub partial : ContentRange → Builder Ext Jar S → Builder Ext Jar S
  partial content_range builder =
      status 206 (header (codes "content-range") (print_content content_range) builder)

  -- The part of the response that a content range makes, with the size
  unfoldable pub with_range :
      Request → Str → ContentRange → ℕ → Builder Ext Jar S → Result (ℕ × Builder Ext Jar S) E
  with_range req path content_range size builder = elim (extract_range content_range) [
    | none ↦ ok (size, partial content_range builder)
    | some (from, to) ↦
        if is_head req
        then ok (size, partial content_range builder)
        else elim (opener.open_file_with_range path (from, to)) [
          | err e ↦ err e
          | ok file ↦ ok ((to - from) + 1, partial content_range (body file builder))
        ]
  ]

  -- The part of the response that a whole file makes
  unfoldable pub with_file :
      Request → Str → Compression → ℕ → Builder Ext Jar S → Result (ℕ × Builder Ext Jar S) E
  with_file req path compression size builder =
      if is_head req then ok (size, builder) else elim (opener.open_file path compression) [
        | err e ↦ err e
        | ok (file, file_size) ↦ ok (file_size, body file builder)
      ]

  -- The part of a range that is served, or of the whole file
  unfoldable pub with_content :
      Request → Str → EntityTag → ℕ → ℕ → Builder Ext Jar S → Result (ℕ × Builder Ext Jar S) E
  with_content req path etag last_modified size builder =
      elim (served_range meta req etag last_modified size) [
        | some content_range ↦ with_range req path content_range size builder
        | none ↦ with_file req path (accepted meta req) size builder
      ]

  -- The response for a file that is found under the base path
  unfoldable pub serve_file : (H : Type 0) → Request → ℕ → Str → Outcome H Ext Jar S E
  serve_file H req max_age path =
      let last_modified = meta.mtime path in
      let size = meta.size path in
      let etag = file_tag last_modified size in
      if is_precondition_failed meta.to_str meta.date_from_http_str req etag last_modified
      then answered (status 412 new_builder)
      else if is_fresh meta.to_str meta.date_from_http_str req etag last_modified
      then answered (
          header (codes "last-modified") (meta.format_systemtime last_modified)
            (status 304 new_builder))
      else elim (with_content req path etag last_modified size new_builder) [
        | err e ↦ failed e
        | ok (served, builder) ↦
            answered (with_headers max_age etag (accepted meta req) path served builder)
      ]

  -- The response where no file is found
  unfoldable pub not_found : {H : Type 0} → Option H → Option ℕ → Outcome H Ext Jar S E
  not_found (some handler) response_code = handled handler
  not_found none response_code = answered (status (unwrap_or response_code 404) new_builder)

  -- `next_inner`
  unfoldable pub next_inner :
      {H : Type 0} → Disk → FileMiddleware H → Request → Outcome H Ext Jar S E
  next_inner {H} disk service req =
      elim (try_all disk service.site req.path service.site.try_files) [
        | panicked ↦ panics
        | code n ↦ not_found service.file_not_found_handler (some n)
        | nothing ↦ not_found service.file_not_found_handler none
        | found path ↦
            if path_is_under_base_path disk service.site path
            then serve_file H req service.max_age path
            else answered (status 401 new_builder)
      ]
