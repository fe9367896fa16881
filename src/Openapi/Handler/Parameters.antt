-- ===== src/Openapi/Handler/Parameters.antt =====
-- Which arguments of a handler are parameters of the document.
use saphir.Base.{
  if◌then◌else◌, unwrap_or, Bool, true, false, not, ◌||◌, List, [], ◌∷◌, ◌++◌, Option, none, some,
}
use saphir.Text.{Str, codes, str_eq}
use saphir.Openapi.Syn.{SynType, path_type, array_type, reference_type, other_type, Arguments}
use saphir.Openapi.Schema.{OpenApiType, string, from_rust_type_str}
use saphir.Openapi.Handler.{
  Parameter, ArgumentKind, skipped, cookies, body, plain, location_of, last_segment, optional_type,
}

-- The last segment of an argument's type, where that is a path with one
abbrev pub Head : Type 0
Head = Option (Str × Arguments)

abbrev pub head_of : SynType → Head
head_of (path_type path) = last_segment path
head_of (array_type _ _) = none
head_of (reference_type _) = none
head_of other_type = none

abbrev pub is_named : Str → Head → Bool
is_named name none = false
is_named name (some (n, _)) = str_eq n name

-- The types whose arguments the documents leave out: extensions, cookies and bodies
abbrev pub is_left_out : Head → Bool
is_left_out head =
    is_named (codes "Ext") head
    || (is_named (codes "CookieJar") head
        || (is_named (codes "Request") head
            || (is_named (codes "Json") head || is_named (codes "Form") head)))

-- The schema of an argument: that of its type, or of the type in an `Option`; a text where it is not known
abbrev pub schema_for : Head → OpenApiType
schema_for none = string
schema_for (some (name, args)) =
    unwrap_or
      (from_rust_type_str (if str_eq name (codes "Option") then optional_type args else name))
      string

-- The parameter of an argument that is not left out
abbrev pub described : List Str → Str → Head → Parameter
described uri_params name head = record {
  name = name;
  location = location_of uri_params name;
  required = not (is_named (codes "Option") head);
  nullable = is_named (codes "Option") head;
  schema = schema_for head;
}

abbrev pub parameter_for : List Str → Str → Head → List Parameter
parameter_for uri_params name head =
    if is_left_out head then [] else described uri_params name head ∷ []

abbrev pub parameters_of : List Str → List (Option Str × SynType) → List Parameter
parameters_of uri_params [] = []
parameters_of uri_params ((none, ty) ∷ inputs) = parameters_of uri_params inputs
parameters_of uri_params ((some name, ty) ∷ inputs) =
    parameter_for uri_params name (head_of ty) ++ parameters_of uri_params inputs

abbrev pub asks_cookies : List (Option Str × SynType) → Bool
asks_cookies [] = false
asks_cookies ((none, ty) ∷ inputs) = asks_cookies inputs
asks_cookies ((some name, ty) ∷ inputs) =
    is_named (codes "CookieJar") (head_of ty) || asks_cookies inputs

-- What a kind of argument adds
abbrev parameter_of : List Str → Str → ArgumentKind → List Parameter
parameter_of uri_params name skipped = []
parameter_of uri_params name cookies = []
parameter_of uri_params name (body _) = []
parameter_of uri_params name (plain schema optional) =
    record {
      name = name;
      location = location_of uri_params name;
      required = not optional;
      nullable = optional;
      schema = schema;
    }
    ∷ []

abbrev is_cookies : ArgumentKind → Bool
is_cookies cookies = true
is_cookies skipped = false
is_cookies (body _) = false
is_cookies (plain _ _) = false
