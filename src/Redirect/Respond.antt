-- ===== src/Redirect/Respond.antt =====
-- saphir/src/redirect.rs: what a redirection does to the builder of a response.
use saphir.Base.{
  Bool, true, false, if◌then◌else◌, ◌≡◌, refl, ◌∙◌, List, [], ◌∷◌, Option, none, some,
}
use saphir.Text.{Str, codes}
use saphir.Redirect.{Redirect}
use saphir.Response.{
  Builder, RawCall, insert_header, append_header, call, status, header, body, cookies,
}
use saphir.Response.Status.{chosen, chosen-append, status-chosen}

module _ {Ext Jar Content : Type 0} where
  -- `headers.extend`: the headers of the redirection replace those of the builder.
  unfoldable pub extend_headers :
      List (Str × Str) → Builder Ext Jar Content → Builder Ext Jar Content
  extend_headers [] b = b
  extend_headers ((name, value) ∷ rest) b = extend_headers rest (call (insert_header name value) b)

  -- A part that is there is put into the builder.
  unfoldable pub with_part :
      {A : Type 0}
      → (A → Builder Ext Jar Content → Builder Ext Jar Content)
      → Option A
      → Builder Ext Jar Content
      → Builder Ext Jar Content
  with_part put none b = b
  with_part put (some part) b = put part b

  -- `respond_with_builder`; `has_headers` tells whether the raw builder has no error.
  unfoldable pub respond_redirect :
      (List (RawCall Ext) → Bool)
      → Redirect Content Jar
      → Builder Ext Jar Content
      → Builder Ext Jar Content
  respond_redirect has_headers r b = with_part cookies r.cookies (
      with_part (header (codes "Content-Type")) r.content_type (
        with_part body r.content (
          with_part (header (codes "Location")) r.location (
            if has_headers (status r.status b).inner
            then extend_headers r.extra_headers (status r.status b)
            else status r.status b))))

  extend_headers-chosen :
      (headers : List (Str × Str)) (b : Builder Ext Jar Content)
      → chosen (extend_headers headers b).inner ≡ chosen b.inner
  unfolding extend_headers
  extend_headers-chosen [] b = refl
  extend_headers-chosen ((name, value) ∷ rest) b =
      extend_headers-chosen rest (call (insert_header name value) b)
      ∙ chosen-append b.inner (insert_header name value ∷ [])

  with_part-chosen :
      {A : Type 0} (put : A → Builder Ext Jar Content → Builder Ext Jar Content) (o : Option A)
      (b : Builder Ext Jar Content)
      → ((a : A) (b : Builder Ext Jar Content) → chosen (put a b).inner ≡ chosen b.inner)
      → chosen (with_part put o b).inner ≡ chosen b.inner
  unfolding with_part
  with_part-chosen put none b h = refl
  with_part-chosen put (some a) b h = h a b

  header-chosen :
      (key value : Str) (b : Builder Ext Jar Content)
      → chosen (header key value b).inner ≡ chosen b.inner
  unfolding header
  header-chosen key value b = chosen-append b.inner (append_header key value ∷ [])

  body-chosen :
      (content : Content) (b : Builder Ext Jar Content)
      → chosen (body content b).inner ≡ chosen b.inner
  unfolding body
  body-chosen content b = refl

  cookies-chosen :
      (jar : Jar) (b : Builder Ext Jar Content) → chosen (cookies jar b).inner ≡ chosen b.inner
  unfolding cookies
  cookies-chosen jar b = refl

  -- The response has the status of the redirection.
  pub respond_redirect-chosen :
      (has_headers : List (RawCall Ext) → Bool) (r : Redirect Content Jar)
      (b : Builder Ext Jar Content)
      → chosen (respond_redirect has_headers r b).inner ≡ some r.status
  unfolding respond_redirect
  respond_redirect-chosen has_headers r b =
      with_part-chosen cookies r.cookies _ cookies-chosen
      ∙ (with_part-chosen (header (codes "Content-Type")) r.content_type _
            (header-chosen (codes "Content-Type"))
          ∙ (with_part-chosen body r.content _ body-chosen
              ∙ (with_part-chosen (header (codes "Location")) r.location _
                    (header-chosen (codes "Location"))
                  ∙ (extended (has_headers (status r.status b).inner) ∙ status-chosen r.status b))))
    where
      extended :
          (intact : Bool)
          → chosen
              (if intact
                then extend_headers r.extra_headers (status r.status b)
                else status r.status b).inner
            ≡ chosen (status r.status b).inner
      extended true = extend_headers-chosen r.extra_headers (status r.status b)
      extended false = refl
