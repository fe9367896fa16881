-- ===== src/Openapi/Syn.antt =====
-- What saphir_cli/src/openapi/generate reads of the syntax trees of the crate `syn`.
use saphir.Base.{Bool, false, List, [], ◌∷◌, Option, none, some}
use saphir.Text.{Str}

-- A path without arguments, as in an attribute
pub record AttrPath : Type 0 where
  pub leading_colon : Bool
  pub segments : List Str

-- `path.get_ident()`: the only segment, where nothing stands before it
abbrev pub get_ident : AttrPath → Option Str
get_ident p = only_segment p.leading_colon p.segments
  where
    only_segment : Bool → List Str → Option Str
    only_segment false (ident ∷ []) = some ident
    only_segment _ _ = none

-- The texts of a string and of an integer; the other literals are not told apart.
pub data Lit : Type 0 where
  str : Str → Lit
  int : Str → Lit
  other : Lit

mutual
  pub data Meta : Type 0 where
    path : AttrPath → Meta
    list : AttrPath → NestedMetas → Meta
    name_value : AttrPath → Lit → Meta

  pub data NestedMetas : Type 0 where
    nil : NestedMetas
    meta : Meta → NestedMetas → NestedMetas
    lit : Lit → NestedMetas → NestedMetas

-- An attribute, and what `parse_meta` makes of it
pub record Attribute : Type 0 where
  pub path : AttrPath
  pub parsed : Option Meta

mutual
  pub data SynType : Type 0 where
    path_type : Segments → SynType
    array_type : SynType → Option Lit → SynType
    reference_type : SynType → SynType
    other_type : SynType

  -- The segments of a path with their arguments
  pub data Segments : Type 0 where
    end : Segments
    segment : Str → Arguments → Segments → Segments

  pub data Arguments : Type 0 where
    angle_bracketed : GenericArguments → Arguments
    no_arguments : Arguments

  pub data GenericArguments : Type 0 where
    closed : GenericArguments
    type_argument : SynType → GenericArguments → GenericArguments
    other_argument : GenericArguments → GenericArguments

-- The names of the segments
abbrev pub idents : Segments → List Str
idents end = []
idents (segment ident _ rest) = ident ∷ idents rest
