-- ===== src/Redirect.antt =====
-- saphir/src/redirect.rs: the builder of a redirection. `post_redirect` is the feature of the build,
-- `parse_uri` parses and prints a URI, and `to_content` makes a body of a text. The errors of extra headers are left out: `build` does not
-- read them.
pub mod Shape
pub mod Setters
pub mod Respond
use saphir.Base.{
  ℕ, Bool, true, false, not, ◌&&◌, ◌||◌, ◌==◌, List, [], ◌∷◌, ◌++◌, Option, none, some,
  if◌then◌else◌, Result, ok, err, ◌>>=◌, ◌>>◌, is_some, unwrap_or,
}
use saphir.Text.{Str, codes}

pub data BuilderError : Type 0 where
  invalid_status invalid_location unexpected_location missing_location : BuilderError
  invalid_query unexpected_query invalid_fragment unexpected_fragment : BuilderError
  invalid_form_data unexpected_form_data unexpected_content missing_content : BuilderError
  unexpected_content_type : BuilderError

abbrev Done : Type 0
Done = Result (Unit {0}) BuilderError

pub record Builder (Content Jar : Type 0) : Type 0 where
  pub status : ℕ
  pub location : Option Str
  pub query : Option (Result Str BuilderError)
  pub fragment : Option (Result Str BuilderError)
  pub form_data : Option (Result (List (Str × Str)) BuilderError)
  pub content : Option Content
  pub content_type : Option Str
  pub extra_headers : List (Str × Str)
  pub cookies : Option Jar

pub record Redirect (Content Jar : Type 0) : Type 0 where
  pub status : ℕ
  pub location : Option Str
  pub content : Option Content
  pub content_type : Option Str
  pub extra_headers : List (Str × Str)
  pub cookies : Option Jar

-- `MOVED_PERMANENTLY`, `PERMANENT_REDIRECT`, `FOUND`, `SEE_OTHER` and `TEMPORARY_REDIRECT`
abbrev pub has_location : ℕ → Bool
has_location status =
    status == 301 || status == 308 || status == 302 || status == 303 || status == 307

-- `format_input` and `format_form`
unfoldable pub format_input : Str → Str → Str
format_input name value =
    codes "<input type=\"hidden\" name=\""
    ++ (name ++ (codes "\" value=\"" ++ (value ++ codes "\"/>\n")))

unfoldable pub format_form : Str → Str → Str
format_form location inputs =
    codes "<body onload=\"javascript:document.forms[0].submit()\">\n<form method=\"post\" action=\""
    ++ (location ++ (codes "\">\n" ++ (inputs ++ codes "\n</form>\n</body>")))

-- The loop of `format_form_data`, over the map in the order of its iteration
unfoldable pub format_inputs : List (Str × Str) → Str
format_inputs [] = []
format_inputs ((n, v) ∷ rest) = format_input n v ++ format_inputs rest

-- `take().transpose()?`, and then what is pushed
unfoldable pub push_part : Str → Option (Result Str BuilderError) → Str → Result Str BuilderError
push_part mark none url = ok url
push_part mark (some (ok part)) url = ok (url ++ (mark ++ part))
push_part mark (some (err e)) url = err e

-- The content that `format_form_data` leaves
unfoldable pub format_form_data :
    {Content : Type 0}
    → (Str → Content)
    → Str
    → Option (Result (List (Str × Str)) BuilderError)
    → Result Content BuilderError
format_form_data to_content location none = ok (to_content (format_form location []))
format_form_data to_content location (some (ok fields)) =
    ok (to_content (format_form location (format_inputs fields)))
format_form_data to_content location (some (err e)) = err e

module _ {Content Jar : Type 0} where
  unfoldable pub assert_form_data : Builder Content Jar → Done
  assert_form_data b = if is_some b.form_data then err unexpected_form_data else ok tt

  unfoldable pub assert_location : Builder Content Jar → Bool → Done
  assert_location b needed =
      if is_some b.location && not needed
      then err unexpected_location
      else if not (is_some b.location) && needed
      then err missing_location
      else ok tt

  unfoldable pub assert_query : Builder Content Jar → Done
  assert_query b = if is_some b.query then err unexpected_query else ok tt

  unfoldable pub assert_fragment : Builder Content Jar → Done
  assert_fragment b = if is_some b.fragment then err unexpected_fragment else ok tt

  unfoldable pub assert_content : Builder Content Jar → Bool → Done
  assert_content b needed =
      if is_some b.content && not needed
      then err unexpected_content
      else if is_some b.content_type && not needed
      then err unexpected_content_type
      else if not (is_some b.content) && needed
      then err missing_content
      else ok tt

  -- The `match` of `build` on the status
  unfoldable pub assert_all : Bool → Builder Content Jar → Done
  assert_all post_redirect b =
      if has_location b.status
      then assert_location b true >> assert_content b false >> assert_form_data b
      else if b.status == 304
      then assert_location b false
        >> assert_query b
        >> assert_fragment b
        >> assert_content b false
        >> assert_form_data b
      else if b.status == 300
      then assert_location b false
        >> assert_query b
        >> assert_fragment b
        >> assert_content b true
        >> assert_form_data b
      else if post_redirect && b.status == 200
      then assert_location b true
      else err invalid_status

  module _ (parse_uri : Str → Option Str) (to_content : Str → Content) where
    unfoldable pub format_location : Builder Content Jar → Result (Option Str) BuilderError
    format_location b = elim b.location [
      | none ↦ ok none
      | some location ↦ elim (parse_uri location) [
        | none ↦ err invalid_location
        | some url ↦ push_part (codes "?") b.query url >>= λ url.
            push_part (codes "#") b.fragment url >>= λ url. ok (some url)
      ]
    ]

    abbrev redirect_of : Builder Content Jar → Option Str → Option Content → Redirect Content Jar
    redirect_of b location content = record {
      status = b.status;
      location = location;
      content = content;
      content_type = b.content_type;
      extra_headers = b.extra_headers;
      cookies = b.cookies;
    }

    unfoldable pub build : Bool → Builder Content Jar → Result (Redirect Content Jar) BuilderError
    build post_redirect b = assert_all post_redirect b >>= λ _. format_location b >>= λ location.
        if post_redirect && b.status == 200
        then (format_form_data to_content (unwrap_or location (codes "/")) b.form_data
            >>= λ content. ok (redirect_of b none (some content)))
        else ok (redirect_of b location b.content)
