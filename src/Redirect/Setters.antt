-- ===== src/Redirect/Setters.antt =====
-- saphir/src/redirect.rs: the setters of the builder, and the redirections to start from. The encoders of queries and forms, and the making of
-- header names and values, are arguments with their outcome.
use saphir.Base.{ℕ, List, [], Option, none, some, ok, err, unwrap_or}
use saphir.Base.Dict.{insert}
use saphir.Text.{Str, codes}
use saphir.Text.Laws.{str_key}
use saphir.Redirect.{Builder, invalid_query, invalid_form_data}

module _ {Content Jar : Type 0} where
  -- `Default`, with a status: the constructors of `Redirect`
  unfoldable pub redirect_with : ℕ → Builder Content Jar
  redirect_with code = record {
    status = code;
    location = none;
    query = none;
    fragment = none;
    form_data = none;
    content = none;
    content_type = none;
    extra_headers = [];
    cookies = none;
  }

  abbrev pub moved_permanently : Builder Content Jar
  moved_permanently = redirect_with 301

  abbrev pub permanent_redirect : Builder Content Jar
  permanent_redirect = redirect_with 308

  abbrev pub found : Builder Content Jar
  found = redirect_with 302

  abbrev pub see_other : Builder Content Jar
  see_other = redirect_with 303

  abbrev pub temporary_redirect : Builder Content Jar
  temporary_redirect = redirect_with 307

  abbrev pub not_modified : Builder Content Jar
  not_modified = redirect_with 304

  abbrev pub multiple_choice : Builder Content Jar
  multiple_choice = record (redirect_with 300) { content_type = some (codes "text/html") }

  abbrev pub post_redirect : Builder Content Jar
  post_redirect = record (redirect_with 200) {
    content_type = some (codes "text/html; charset=utf-8");
  }

  unfoldable pub set_location : Str → Builder Content Jar → Builder Content Jar
  set_location location b = record b { location = some location }

  -- `query_param` and `fragment_param` on the encoded parameter, none where it has none
  unfoldable pub query_param : Option Str → Builder Content Jar → Builder Content Jar
  query_param (some text) b = record b { query = some (ok text) }
  query_param none b = record b { query = some (err invalid_query) }

  unfoldable pub query_string : Str → Builder Content Jar → Builder Content Jar
  query_string text b = record b { query = some (ok text) }

  unfoldable pub fragment_param : Option Str → Builder Content Jar → Builder Content Jar
  fragment_param (some text) b = record b { fragment = some (ok text) }
  fragment_param none b = record b { fragment = some (err invalid_query) }

  unfoldable pub fragment_string : Str → Builder Content Jar → Builder Content Jar
  fragment_string text b = record b { fragment = some (ok text) }

  -- `form_data` on the fields of the data, none where it has none
  unfoldable pub form_data : Option (List (Str × Str)) → Builder Content Jar → Builder Content Jar
  form_data (some fields) b = record b { form_data = some (ok fields) }
  form_data none b = record b { form_data = some (err invalid_form_data) }

  unfoldable pub choices : Content → Builder Content Jar → Builder Content Jar
  choices content b = record b { content = some content }

  -- `header`: a name or a value that is refused leaves the headers as they are.
  unfoldable pub extra_header : Option Str → Option Str → Builder Content Jar → Builder Content Jar
  extra_header (some name) (some value) b = record b {
    extra_headers = insert name value b.extra_headers;
  }
  extra_header (some name) none b = b
  extra_header none value b = b

  -- `cookie`, through `cookies_mut`
  unfoldable pub add_cookie :
      {Cookie : Type 0}
      → Jar
      → (Cookie → Jar → Jar)
      → Cookie
      → Builder Content Jar
      → Builder Content Jar
  add_cookie new_jar add c b = record b { cookies = some (add c (unwrap_or b.cookies new_jar)) }

  unfoldable pub set_cookies : Jar → Builder Content Jar → Builder Content Jar
  set_cookies jar b = record b { cookies = some jar }
