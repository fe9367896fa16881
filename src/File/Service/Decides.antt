-- ===== src/File/Service/Decides.antt =====
-- The decisions of the service: the status of an answer, and when a file is in it.
use saphir.Base.{
  ℕ, ◌≡◌, refl, ap, ◌∙◌, Bool, true, false, Option, none, some, if◌then◌else◌, is_some, Result, ok,
  err, unwrap_or,
}
use mathlib.Core.Path.{subst}
use saphir.Text.{Str, codes}
use saphir.Http.{Request}
use saphir.Response.{Builder, new_builder, status, header}
use saphir.Response.Status.{chosen, status-chosen}
use saphir.File.Service.Answers.{header-chosen, with_headers-chosen, with_content-chosen}
use saphir.File.Service.Opens.{OpenedAt, serve_file-Opens}
use saphir.File.Etag.{EntityTag}
use saphir.File.Range.{ContentRange}
use saphir.File.Conditional.{is_precondition_failed, is_fresh}
use saphir.File.Site.{Disk, Tried, found, code, nothing, panicked, try_all, path_is_under_base_path}
use saphir.File.Service.{
  FileMiddleware, Meta, Opener, Outcome, answered, failed, panics, file_tag, accepted, served_range,
  with_headers, with_content, serve_file, not_found, next_inner,
}

module _ {Ext Jar S E : Type 0} (meta : Meta) (opener : Opener S E) (H : Type 0) where
  -- The status of the answer for a file: 412, 304, 206 or the default one, in this order.
  pub serve_file-chosen :
      (req : Request) (max_age : ℕ) (path : Str) (b : Builder Ext Jar S)
      → serve_file meta opener H req max_age path ≡ answered b
      → chosen b.inner ≡ (
          if is_precondition_failed meta.to_str meta.date_from_http_str req
            (file_tag (meta.mtime path) (meta.size path))
            (meta.mtime path)
          then some 412
          else if is_fresh meta.to_str meta.date_from_http_str req
              (file_tag (meta.mtime path) (meta.size path))
              (meta.mtime path)
          then some 304
          else if is_some (
              served_range meta req
                (file_tag (meta.mtime path) (meta.size path))
                (meta.mtime path)
                (meta.size path))
          then some 206
          else none)
  unfolding serve_file new_builder
  serve_file-chosen req max_age path b e =
      from_checks
        (is_precondition_failed meta.to_str meta.date_from_http_str req etag (meta.mtime path))
        (is_fresh meta.to_str meta.date_from_http_str req etag (meta.mtime path)) e
    where
      etag : EntityTag
      etag = file_tag (meta.mtime path) (meta.size path)

      range : Option ContentRange
      range = served_range meta req etag (meta.mtime path) (meta.size path)

      served : Result (ℕ × Builder Ext Jar S) E
      served = with_content meta opener req path etag (meta.mtime path) (meta.size path) new_builder

      not_modified : Builder Ext Jar S
      not_modified =
          header (codes "last-modified") (meta.format_systemtime (meta.mtime path))
            (status 304 new_builder)

      from_served :
          (r : Result (ℕ × Builder Ext Jar S) E)
          → served ≡ r
          → ◌≡◌ {A = Outcome H Ext Jar S E}
              (elim r [
                | err x ↦ failed x
                | ok (size, builder) ↦
                    answered
                      (with_headers meta opener max_age etag (accepted meta req) path size builder)
              ])
              (answered b)
          → chosen b.inner ≡ (if is_some range then some 206 else none)
      from_served (err x) s e = absurd cc
      from_served (ok (size, builder)) s e =
          let same : with_headers meta opener max_age etag (accepted meta req) path size builder
              ≡ b =
            cc in
          subst (λ x. chosen x.inner ≡ (if is_some range then some 206 else none)) same
            (with_headers-chosen meta opener max_age etag (accepted meta req) path size builder
              ∙ with_content-chosen meta opener req path etag (meta.mtime path) (meta.size path)
                  new_builder (size, builder) s)

      from_checks :
          (p f : Bool)
          → ◌≡◌ {A = Outcome H Ext Jar S E}
              (if p
                then answered (status 412 new_builder)
                else if f
                then answered not_modified
                else elim served [
                  | err x ↦ failed x
                  | ok (size, builder) ↦
                      answered (
                        with_headers meta opener max_age etag (accepted meta req) path size builder)
                ])
              (answered b)
          → chosen b.inner ≡ (
              if p
              then some 412
              else if f
              then some 304
              else if is_some range
              then some 206
              else none)
      from_checks true f e =
          let same : status 412 new_builder ≡ b = cc in
          subst (λ x. chosen x.inner ≡ some 412) same (status-chosen 412 new_builder)
      from_checks false true e =
          let same : not_modified ≡ b = cc in
          subst (λ x. chosen x.inner ≡ some 304) same
            (header-chosen meta opener (codes "last-modified")
                (meta.format_systemtime (meta.mtime path)) (status 304 new_builder)
              ∙ status-chosen 304 new_builder)
      from_checks false false e = from_served served refl e

  -- A file that is found under the directory is served.
  pub next_inner-serves :
      (disk : Disk) (service : FileMiddleware H) (req : Request) (path : Str)
      → try_all disk service.site req.path service.site.try_files ≡ found path
      → path_is_under_base_path disk service.site path ≡ true
      → ◌≡◌ {A = Outcome H Ext Jar S E}
          (next_inner meta opener disk service req)
          (serve_file meta opener H req service.max_age path)
  unfolding next_inner
  next_inner-serves disk service req path t u = rw (t, u, next_inner) refl

  -- An answer of the service with a body is for a path that the loop over `try_files` found, and that
  -- starts with the components of the directory that is served; the body is a stream that the cache
  -- opened for this path, the whole file in the compression that the request accepts, or a range of it.
  pub next_inner-found :
      (disk : Disk) (service : FileMiddleware H) (req : Request) (b : Builder Ext Jar S) (file : S)
      → next_inner meta opener disk service req ≡ answered b
      → b.body ≡ some file
      → (path : Str) × (try_all disk service.site req.path service.site.try_files ≡ found path)
        × (path_is_under_base_path disk service.site path ≡ true)
        × OpenedAt meta opener req path file
  unfolding next_inner not_found status new_builder
  next_inner-found disk service req b file e has =
      from_tried (try_all disk service.site req.path service.site.try_files) refl e
    where
      Found : Type 0
      Found =
          (path : Str) × (try_all disk service.site req.path service.site.try_files ≡ found path)
          × (path_is_under_base_path disk service.site path ≡ true)
          × OpenedAt meta opener req path file

      from_missing :
          (o : Option H) (response_code : Option ℕ)
          → not_found meta opener o response_code ≡ answered b
          → Found
      from_missing (some handler) response_code e = absurd cc
      from_missing none response_code e =
          let same : status (unwrap_or response_code 404) new_builder ≡ b = cc in
          let bodies : none ≡ b.body = ap (λ (x : Builder Ext Jar S). x.body) same in absurd cc

      from_under :
          (path : Str) (under : Bool)
          → try_all disk service.site req.path service.site.try_files ≡ found path
          → path_is_under_base_path disk service.site path ≡ under
          → (if under
              then serve_file meta opener H req service.max_age path
              else answered (status 401 new_builder))
            ≡ answered b
          → Found
      from_under path true t u e =
          (path, t, u, serve_file-Opens meta opener H req service.max_age path b e file has)
      from_under path false t u e =
          let same : status 401 new_builder ≡ b = cc in
          let bodies : none ≡ b.body = ap (λ (x : Builder Ext Jar S). x.body) same in absurd cc

      from_tried :
          (t : Tried)
          → try_all disk service.site req.path service.site.try_files ≡ t
          → ◌≡◌ {A = Outcome H Ext Jar S E}
              (elim t [
                | panicked ↦ panics
                | code n ↦ not_found meta opener service.file_not_found_handler (some n)
                | nothing ↦ not_found meta opener service.file_not_found_handler none
                | found path ↦
                    if path_is_under_base_path disk service.site path
                    then serve_file meta opener H req service.max_age path
                    else answered (status 401 new_builder)
              ])
              (answered b)
          → Found
      from_tried panicked t e = absurd cc
      from_tried (code n) t e = from_missing service.file_not_found_handler (some n) e
      from_tried nothing t e = from_missing service.file_not_found_handler none e
      from_tried (found path) t e =
          from_under path (path_is_under_base_path disk service.site path) t refl e
