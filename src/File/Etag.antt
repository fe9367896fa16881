-- ===== src/File/Etag.antt =====
-- saphir/src/file/etag.rs: entity tags.
pub mod Laws
use saphir.Base.{Bool, true, false, not, ◌&&◌, ◌++◌, if◌then◌else◌}
use saphir.Text.{Str, codes, str_eq, starts_with, trim_start_matches, trim_end_matches}

pub data EntityTag : Type 0 where
  strong weak : Str → EntityTag

-- `EntityTag::new`
unfoldable pub new_tag : Bool → Str → EntityTag
new_tag is_weak tag = if is_weak then weak tag else strong tag

unfoldable pub parse_tag : Str → EntityTag
parse_tag tag =
    if starts_with (codes "W/") tag
    then weak (trim_end_matches (codes "\"") (trim_start_matches (codes "W/\"") tag))
    else strong (trim_end_matches (codes "\"") (trim_start_matches (codes "\"") tag))

unfoldable pub get_tag : EntityTag → Str
get_tag (strong tag) = codes "\"" ++ (tag ++ codes "\"")
get_tag (weak tag) = codes "W/\"" ++ (tag ++ codes "\"")

abbrev pub is_weak : EntityTag → Bool
is_weak (weak _) = true
is_weak (strong _) = false

-- `as_ref`
abbrev pub text_of : EntityTag → Str
text_of (strong tag) = tag
text_of (weak tag) = tag

unfoldable pub weak_eq : EntityTag → EntityTag → Bool
weak_eq a b = str_eq (text_of a) (text_of b)

unfoldable pub strong_eq : EntityTag → EntityTag → Bool
strong_eq a b = not (is_weak a) && not (is_weak b) && str_eq (text_of a) (text_of b)
