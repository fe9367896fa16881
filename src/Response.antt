-- ===== src/Response.antt =====
-- saphir/src/response.rs: responses and their builder. The builder of the crate `http` is the list of the
-- calls that are made of it, in order; what it makes of them is a parameter, as are cookie jars,
-- `HeaderValue::from_str` and the encoders of JSON and forms. Spans of tracing are left out.
pub mod Status
use saphir.Base.{
  Bool, true, false, List, [], ◌∷◌, ◌++◌, Option, none, some, if◌then◌else◌, Result, ok, err,
  unwrap_or, ℕ,
}
use saphir.Text.{Str, codes}

pub data RawCall (Ext : Type 0) : Type 0 where
  set_status : ℕ → RawCall Ext
  set_version : Str → RawCall Ext
  append_header insert_header : Str → Str → RawCall Ext
  add_extension : Ext → RawCall Ext

pub record Builder (Ext Jar Content : Type 0) : Type 0 where
  pub inner : List (RawCall Ext)
  pub cookies : Option Jar
  pub body : Option Content
  pub status_set : Bool

pub record Response (Raw Jar : Type 0) : Type 0 where
  pub inner : Raw
  pub cookies : Jar

module _ {Ext Jar Content : Type 0} where
  -- A call of the raw builder
  abbrev pub call : RawCall Ext → Builder Ext Jar Content → Builder Ext Jar Content
  call c b = record b { inner = b.inner ++ (c ∷ []) }

  unfoldable pub new_builder : Builder Ext Jar Content
  new_builder = record { inner = []; cookies = none; body = none; status_set = false }

  unfoldable pub status : ℕ → Builder Ext Jar Content → Builder Ext Jar Content
  status code b = call (set_status code) (record b { status_set = true })

  unfoldable pub status_if_not_set : ℕ → Builder Ext Jar Content → Builder Ext Jar Content
  status_if_not_set code b = if b.status_set then b else status code b

  unfoldable pub version : Str → Builder Ext Jar Content → Builder Ext Jar Content
  version v b = call (set_version v) b

  unfoldable pub header : Str → Str → Builder Ext Jar Content → Builder Ext Jar Content
  header key value b = call (append_header key value) b

  unfoldable pub extension : Ext → Builder Ext Jar Content → Builder Ext Jar Content
  extension e b = call (add_extension e) b

  -- `cookie`, through `cookies_mut`
  unfoldable pub cookie :
      {Cookie : Type 0}
      → Jar
      → (Cookie → Jar → Jar)
      → Cookie
      → Builder Ext Jar Content
      → Builder Ext Jar Content
  cookie new_jar add c b = record b { cookies = some (add c (unwrap_or b.cookies new_jar)) }

  unfoldable pub cookies : Jar → Builder Ext Jar Content → Builder Ext Jar Content
  cookies jar b = record b { cookies = some jar }

  unfoldable pub body : Content → Builder Ext Jar Content → Builder Ext Jar Content
  body content b = record b { body = some content }

  -- `has_header` is none where the raw builder has an error; `from_str` makes a header value.
  unfoldable pub content_type_if_not_set :
      (List (RawCall Ext) → Str → Option Bool)
      → (Str → Option Str)
      → Str
      → Builder Ext Jar Content
      → Builder Ext Jar Content
  content_type_if_not_set has_header from_str content_type b =
      elim (has_header b.inner (codes "content-type")) [
        | none ↦ b
        | some true ↦ b
        | some false ↦ elim (from_str content_type) [
          | none ↦ b
          | some value ↦ call (insert_header (codes "content-type") value) b
        ]
      ]

  -- `json` and `form`: the encoded value, or the builder and the error
  unfoldable pub encoded :
      {X : Type 0}
      → (List (RawCall Ext) → Str → Option Bool)
      → (Str → Option Str)
      → Str
      → Result Content X
      → Builder Ext Jar Content
      → Result (Builder Ext Jar Content) (Builder Ext Jar Content × X)
  encoded has_header from_str content_type (ok v) b =
      ok (body v (content_type_if_not_set has_header from_str content_type b))
  encoded has_header from_str content_type (err e) b = err (b, e)

  -- `build`; `transmute` of no body is the empty one.
  unfoldable pub build :
      {Raw X : Type 0}
      → (List (RawCall Ext) → Option Content → Result Raw X)
      → Jar
      → Builder Ext Jar Content
      → Result (Response Raw Jar) X
  build finish new_jar b = elim (finish b.inner b.body) [
    | ok raw ↦ ok (record { inner = raw; cookies = unwrap_or b.cookies new_jar })
    | err e ↦ err e
  ]

-- `Response::map`
unfoldable pub map_response :
    {Raw Other Jar : Type 0} → (Raw → Other) → Response Raw Jar → Response Other Jar
map_response f r = record { inner = f r.inner; cookies = r.cookies }

-- The loop of `into_raw`, over the cookies of the jar
unfoldable pub append_cookies :
    {Raw X : Type 0}
    → (Str → Result Str X)
    → (Str → Str → Raw → Raw)
    → List Str
    → Raw
    → Result Raw X
append_cookies from_str append [] raw = ok raw
append_cookies from_str append (c ∷ rest) raw = elim (from_str c) [
  | ok value ↦ append_cookies from_str append rest (append (codes "set-cookie") value raw)
  | err e ↦ err e
]

unfoldable pub into_raw :
    {Raw Jar X : Type 0}
    → (Jar → List Str)
    → (Str → Result Str X)
    → (Str → Str → Raw → Raw)
    → Response Raw Jar
    → Result Raw X
into_raw cookies_of from_str append r =
    append_cookies from_str append (cookies_of r.cookies) r.inner
