-- ===== src/File/Service/Answers.antt =====
-- How the service answers: the status, and when a file is in the answer.
use saphir.Base.{
  ℕ, ◌+◌, ◌-◌, ◌≡◌, refl, sym, ap, Bool, true, false, [], ◌∷◌, Option, none, some, if◌then◌else◌,
  is_some, Result, ok, err, Bool-cases, inl, inr, ◌==◌,
}
use mathlib.Core.Path.{subst}
use saphir.Text.{Str, codes}
use saphir.Http.{Request}
use saphir.Response.{Builder, append_header, status, header, body}
use saphir.Response.Status.{chosen, chosen-append, status-chosen}
use saphir.File.Etag.{EntityTag}
use saphir.File.Range.{ContentRange, extract_range, print_content}
use saphir.File.Compression.{Compression, rank}
use saphir.File.Service.{
  Meta, Opener, accepted, served_range, with_headers, partial, with_range, with_file, with_content,
  is_head,
}

module _ {Ext Jar S E : Type 0} (meta : Meta) (opener : Opener S E) where
  pub header-chosen :
      (key value : Str) (b : Builder Ext Jar S) → chosen (header key value b).inner ≡ chosen b.inner
  unfolding header
  header-chosen key value b = chosen-append b.inner (append_header key value ∷ [])

  pub with_headers-chosen :
      (max_age : ℕ) (etag : EntityTag) (compression : Compression) (path : Str) (size : ℕ)
      (b : Builder Ext Jar S)
      → chosen (with_headers meta opener max_age etag compression path size b).inner
        ≡ chosen b.inner
  unfolding with_headers
  with_headers-chosen max_age etag compression path size b =
      elim (Bool-cases (rank compression == 0)) [
        | inl e ↦ rw (e, with_headers) (simp header-chosen refl)
        | inr e ↦ rw (e, with_headers) (simp header-chosen refl)
      ]

  partial-chosen :
      (content_range : ContentRange) (b : Builder Ext Jar S)
      → chosen (partial meta opener content_range b).inner ≡ some 206
  unfolding partial
  partial-chosen content_range b =
      status-chosen 206 (header (codes "content-range") (print_content content_range) b)

  partial-body :
      (content_range : ContentRange) (file : S) (b : Builder Ext Jar S)
      → (partial meta opener content_range (body file b)).body ≡ some file
  unfolding partial status header body
  partial-body content_range file b = refl

  -- What a range that is served makes of the response
  abbrev pub Partial :
      Request → Str → ContentRange → ℕ → Builder Ext Jar S → ℕ × Builder Ext Jar S → Type 0
  Partial req path content_range size b (served, answer) =
      (chosen answer.inner ≡ some 206)
      × ((from to : ℕ)
          → is_head req ≡ false
          → extract_range content_range ≡ some (from, to)
          → (file : S) × (opener.open_file_with_range path (from, to) ≡ ok file)
            × (answer.body ≡ some file)
            × (served ≡ (to - from) + 1))

  pub with_range-Partial :
      (req : Request) (path : Str) (content_range : ContentRange) (size : ℕ) (b : Builder Ext Jar S)
      (result : ℕ × Builder Ext Jar S)
      → with_range meta opener req path content_range size b ≡ ok result
      → Partial req path content_range size b result
  unfolding with_range
  with_range-Partial req path content_range size b result e =
      from_range (extract_range content_range) refl (is_head req) refl e
    where
      from_range :
          (range : Option (ℕ × ℕ))
          → extract_range content_range ≡ range
          → (head : Bool) → is_head req ≡ head
          → ◌≡◌ {A = Result (ℕ × Builder Ext Jar S) E}
              (elim range [
                | none ↦ ok (size, partial meta opener content_range b)
                | some (from, to) ↦
                    if head
                    then ok (size, partial meta opener content_range b)
                    else elim (opener.open_file_with_range path (from, to)) [
                      | err x ↦ err x
                      | ok file ↦
                          ok ((to - from) + 1, partial meta opener content_range (body file b))
                    ]
              ])
              (ok result)
          → Partial req path content_range size b result
      from_range none r head h e =
          let same : (size, partial meta opener content_range b) ≡ result = cc in
          subst (Partial req path content_range size b) same
            (partial-chosen content_range b, λ from to g k. absurd cc)
      from_range (some (from, to)) r true h e =
          let same : (size, partial meta opener content_range b) ≡ result = cc in
          subst (Partial req path content_range size b) same
            (partial-chosen content_range b, λ from' to' g k. absurd cc)
      from_range (some (from, to)) r false h e =
          from_open (opener.open_file_with_range path (from, to)) refl e
        where
          from_open :
              (o : Result S E)
              → opener.open_file_with_range path (from, to) ≡ o
              → ◌≡◌ {A = Result (ℕ × Builder Ext Jar S) E}
                  (elim o [
                    | err x ↦ err x
                    | ok file ↦
                        ok ((to - from) + 1, partial meta opener content_range (body file b))
                  ])
                  (ok result)
              → Partial req path content_range size b result
          from_open (err x) o e = absurd cc
          from_open (ok file) o e =
              let same : ((to - from) + 1, partial meta opener content_range (body file b))
                  ≡ result =
                cc in
              subst (Partial req path content_range size b) same (
                partial-chosen content_range (body file b),
                λ from' to' g k.
                    let same_from : from ≡ from' = cc in
                    let same_to : to ≡ to' = cc in
                    (
                      file,
                      rw (sym same_from, sym same_to) o,
                      partial-body content_range file b,
                      rw (sym same_from, sym same_to) refl,
                    ),
              )

  with_file-chosen :
      (req : Request) (path : Str) (compression : Compression) (size : ℕ) (b : Builder Ext Jar S)
      (result : ℕ × Builder Ext Jar S)
      → with_file meta opener req path compression size b ≡ ok result
      → chosen result.1.inner ≡ chosen b.inner
  unfolding with_file body
  with_file-chosen req path compression size b result e =
      from_head (is_head req) (opener.open_file path compression) e
    where
      from_head :
          (head : Bool) (o : Result (S × ℕ) E)
          → ◌≡◌ {A = Result (ℕ × Builder Ext Jar S) E}
              (if head
                then ok (size, b)
                else elim o [ err x ↦ err x | ok (file, file_size) ↦ ok (file_size, body file b) ])
              (ok result)
          → chosen result.1.inner ≡ chosen b.inner
      from_head true o e =
          let same : (size, b) ≡ result = cc in ap (λ x. chosen x.1.inner) (sym same)
      from_head false (err x) e = absurd cc
      from_head false (ok (file, file_size)) e =
          let same : (file_size, body file b) ≡ result = cc in ap (λ x. chosen x.1.inner) (sym same)

  pub with_content-chosen :
      (req : Request) (path : Str) (etag : EntityTag) (last_modified size : ℕ)
      (b : Builder Ext Jar S) (result : ℕ × Builder Ext Jar S)
      → with_content meta opener req path etag last_modified size b ≡ ok result
      → chosen result.1.inner ≡ (
          if is_some (served_range meta req etag last_modified size)
          then some 206
          else chosen b.inner)
  unfolding with_content
  with_content-chosen req path etag last_modified size b result e =
      from_range (served_range meta req etag last_modified size) e
    where
      from_range :
          (o : Option ContentRange)
          → ◌≡◌ {A = Result (ℕ × Builder Ext Jar S) E}
              (elim o [
                | some content_range ↦ with_range meta opener req path content_range size b
                | none ↦ with_file meta opener req path (accepted meta req) size b
              ])
              (ok result)
          → chosen result.1.inner ≡ (if is_some o then some 206 else chosen b.inner)
      from_range none e = with_file-chosen req path (accepted meta req) size b result e
      from_range (some content_range) e =
          (with_range-Partial req path content_range size b result e).0
