-- ===== src/File/Service/Opens.antt =====
-- The body of an answer of `serve_file`: a stream that the cache opened for the path.
use saphir.Base.{
  ℕ, ◌+◌, ◌-◌, ◌≡◌, refl, ap, sym, ◌∙◌, Bool, true, false, Option, none, some, if◌then◌else◌,
  Result, ok, err, ◌⊎◌, Bool-cases, inl, inr, ◌==◌,
}
use mathlib.Core.Path.{subst}
use saphir.Text.{Str, codes}
use saphir.Http.{Request}
use saphir.Response.{Builder, new_builder, status, header, body}
use saphir.File.Etag.{EntityTag}
use saphir.File.Range.{ContentRange, extract_range}
use saphir.File.Compression.{Compression, rank}
use saphir.File.Conditional.{is_precondition_failed, is_fresh}
use saphir.File.Service.{
  Meta, Opener, Outcome, answered, failed, file_tag, accepted, served_range, with_headers, partial,
  with_range, with_file, with_content, serve_file, is_head,
}

module _ {S E : Type 0} (meta : Meta) (opener : Opener S E) where
  -- What the cache opened for a path: the whole file, in the compression of the response, or a range
  abbrev pub OpenedAt : Request → Str → S → Type 0
  OpenedAt req path file =
      ((size : ℕ) × (opener.open_file path (accepted meta req) ≡ ok (file, size)))
      ⊎ ((range : ℕ × ℕ) × (opener.open_file_with_range path range ≡ ok file))

  abbrev pub Opens : Request → Str → Option S → Type 0
  Opens req path content = (file : S) → content ≡ some file → OpenedAt req path file

  none-Opens : (req : Request) (path : Str) → Opens req path none
  none-Opens req path file e = absurd cc

module _ {Ext Jar S E : Type 0} (meta : Meta) (opener : Opener S E) where
  with_headers-body :
      (max_age : ℕ) (etag : EntityTag) (compression : Compression) (path : Str) (size : ℕ)
      (b : Builder Ext Jar S)
      → (with_headers meta opener max_age etag compression path size b).body ≡ b.body
  unfolding with_headers header
  with_headers-body max_age etag compression path size b =
      elim (Bool-cases (rank compression == 0)) [
        | inl e ↦ rw (e, with_headers) refl
        | inr e ↦ rw (e, with_headers) refl
      ]

  partial-body :
      (content_range : ContentRange) (b : Builder Ext Jar S)
      → (partial meta opener content_range b).body ≡ b.body
  unfolding partial status header
  partial-body content_range b = refl

  with_range-Opens :
      (req : Request) (path : Str) (content_range : ContentRange) (size : ℕ) (b : Builder Ext Jar S)
      (result : ℕ × Builder Ext Jar S)
      → b.body ≡ none
      → with_range meta opener req path content_range size b ≡ ok result
      → Opens meta opener req path result.1.body
  unfolding with_range body
  with_range-Opens req path content_range size b result empty e =
      from_range (extract_range content_range) (is_head req) e
    where
      without :
          ◌≡◌ {A = Result (ℕ × Builder Ext Jar S) E}
            (ok (size, partial meta opener content_range b))
            (ok result)
          → Opens meta opener req path result.1.body
      without e =
          let same : (size, partial meta opener content_range b) ≡ result = cc in
          subst (λ x. Opens meta opener req path x.1.body) same
            (subst (Opens meta opener req path) (sym (partial-body content_range b ∙ empty))
              (none-Opens meta opener req path))

      from_range :
          (range : Option (ℕ × ℕ)) (head : Bool)
          → ◌≡◌ {A = Result (ℕ × Builder Ext Jar S) E}
              (elim range [
                | none ↦ ok (size, partial meta opener content_range b)
                | some (from, to) ↦
                    if head
                    then ok (size, partial meta opener content_range b)
                    else elim (opener.open_file_with_range path (from, to)) [
                      | err x ↦ err x
                      | ok file ↦
                          ok ((to - from) + 1, partial meta opener content_range (body file b))
                    ]
              ])
              (ok result)
          → Opens meta opener req path result.1.body
      from_range none head e = without e
      from_range (some (from, to)) true e = without e
      from_range (some (from, to)) false e =
          from_open (opener.open_file_with_range path (from, to)) refl e
        where
          from_open :
              (o : Result S E)
              → opener.open_file_with_range path (from, to) ≡ o
              → ◌≡◌ {A = Result (ℕ × Builder Ext Jar S) E}
                  (elim o [
                    | err x ↦ err x
                    | ok file ↦
                        ok ((to - from) + 1, partial meta opener content_range (body file b))
                  ])
                  (ok result)
              → Opens meta opener req path result.1.body
          from_open (err x) o e = absurd cc
          from_open (ok opened) o e =
              let same : ((to - from) + 1, partial meta opener content_range (body opened b))
                  ≡ result =
                cc in
              subst (λ x. Opens meta opener req path x.1.body) same
                (λ file has.
                  let held : some opened ≡ some file =
                    sym (partial-body content_range (body opened b)) ∙ has in
                  let one : opened ≡ file = cc in inr ((from, to), o ∙ ap ok one))

  with_file-Opens :
      (req : Request) (path : Str) (size : ℕ) (b : Builder Ext Jar S)
      (result : ℕ × Builder Ext Jar S)
      → b.body ≡ none
      → with_file meta opener req path (accepted meta req) size b ≡ ok result
      → Opens meta opener req path result.1.body
  unfolding with_file body
  with_file-Opens req path size b result empty e =
      from_head (is_head req) (opener.open_file path (accepted meta req)) refl e
    where
      from_head :
          (head : Bool) (o : Result (S × ℕ) E)
          → opener.open_file path (accepted meta req) ≡ o
          → ◌≡◌ {A = Result (ℕ × Builder Ext Jar S) E}
              (if head
                then ok (size, b)
                else elim o [ err x ↦ err x | ok (file, file_size) ↦ ok (file_size, body file b) ])
              (ok result)
          → Opens meta opener req path result.1.body
      from_head true o t e =
          let same : (size, b) ≡ result = cc in
          subst (λ x. Opens meta opener req path x.1.body) same
            (subst (Opens meta opener req path) (sym empty) (none-Opens meta opener req path))
      from_head false (err x) t e = absurd cc
      from_head false (ok (opened, file_size)) t e =
          let same : (file_size, body opened b) ≡ result = cc in
          subst (λ x. Opens meta opener req path x.1.body) same
            (λ file has.
              let one : opened ≡ file = cc in inl (file_size, t ∙ ap (λ f. ok (f, file_size)) one))

  with_content-Opens :
      (req : Request) (path : Str) (etag : EntityTag) (last_modified size : ℕ)
      (b : Builder Ext Jar S) (result : ℕ × Builder Ext Jar S)
      → b.body ≡ none
      → with_content meta opener req path etag last_modified size b ≡ ok result
      → Opens meta opener req path result.1.body
  unfolding with_content
  with_content-Opens req path etag last_modified size b result empty e =
      from_range (served_range meta req etag last_modified size) e
    where
      from_range :
          (o : Option ContentRange)
          → ◌≡◌ {A = Result (ℕ × Builder Ext Jar S) E}
              (elim o [
                | some content_range ↦ with_range meta opener req path content_range size b
                | none ↦ with_file meta opener req path (accepted meta req) size b
              ])
              (ok result)
          → Opens meta opener req path result.1.body
      from_range none e = with_file-Opens req path size b result empty e
      from_range (some content_range) e =
          with_range-Opens req path content_range size b result empty e

  -- The body of what is served for a path is a stream that was opened there.
  pub serve_file-Opens :
      (H : Type 0) (req : Request) (max_age : ℕ) (path : Str) (b : Builder Ext Jar S)
      → serve_file meta opener H req max_age path ≡ answered b
      → Opens meta opener req path b.body
  unfolding serve_file new_builder status header
  serve_file-Opens H req max_age path b e =
      from_checks
        (is_precondition_failed meta.to_str meta.date_from_http_str req etag (meta.mtime path))
        (is_fresh meta.to_str meta.date_from_http_str req etag (meta.mtime path)) e
    where
      etag : EntityTag
      etag = file_tag (meta.mtime path) (meta.size path)

      served : Result (ℕ × Builder Ext Jar S) E
      served = with_content meta opener req path etag (meta.mtime path) (meta.size path) new_builder

      not_modified : Builder Ext Jar S
      not_modified =
          header (codes "last-modified") (meta.format_systemtime (meta.mtime path))
            (status 304 new_builder)

      from_served :
          (r : Result (ℕ × Builder Ext Jar S) E)
          → served ≡ r
          → ◌≡◌ {A = Outcome H Ext Jar S E}
              (elim r [
                | err x ↦ failed x
                | ok (size, builder) ↦
                    answered
                      (with_headers meta opener max_age etag (accepted meta req) path size builder)
              ])
              (answered b)
          → Opens meta opener req path b.body
      from_served (err x) s e = absurd cc
      from_served (ok (size, builder)) s e =
          let same : with_headers meta opener max_age etag (accepted meta req) path size builder
              ≡ b =
            cc in
          subst (λ x. Opens meta opener req path x.body) same
            (subst (Opens meta opener req path)
              (sym (with_headers-body max_age etag (accepted meta req) path size builder))
              (with_content-Opens req path etag (meta.mtime path) (meta.size path) new_builder
                (size, builder) refl s))

      from_checks :
          (p f : Bool)
          → ◌≡◌ {A = Outcome H Ext Jar S E}
              (if p
                then answered (status 412 new_builder)
                else if f
                then answered not_modified
                else elim served [
                  | err x ↦ failed x
                  | ok (size, builder) ↦
                      answered (
                        with_headers meta opener max_age etag (accepted meta req) path size builder)
                ])
              (answered b)
          → Opens meta opener req path b.body
      from_checks true f e =
          let same : status 412 new_builder ≡ b = cc in
          subst (λ x. Opens meta opener req path x.body) same (none-Opens meta opener req path)
      from_checks false true e =
          let same : not_modified ≡ b = cc in
          subst (λ x. Opens meta opener req path x.body) same (none-Opens meta opener req path)
      from_checks false false e = from_served served refl e
