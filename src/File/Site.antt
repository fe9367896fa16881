-- ===== src/File/Site.antt =====
-- saphir/src/file/middleware.rs: which file answers a path. A `PathBuf` is its text, seen through its
-- components as `std::path` has them; what `strip_prefix` leaves is written with single slashes. What the
-- disk has, and the decoding of percents, are parameters.
pub mod Under
pub mod Checked
use saphir.Base.{
  ℕ, zero, suc, ◌+◌, Bool, false, not, ◌&&◌, ◌||◌, ◌==◌, ltb, List, [], ◌∷◌, ◌++◌, Option, none,
  some, if◌then◌else◌, is_empty, is_some,
}
use saphir.Text.{Str, codes, str_eq, split, starts_with, ends_with, strip_prefix}
use saphir.Text.Split.{join}
use saphir.Text.Decimal.{parse_u64}

-- The parts between the slashes, but for empty ones and `.`
abbrev pub is_part : Str → Bool
is_part s = not (is_empty s) && not (str_eq s (codes "."))

unfoldable pub parts : List Str → List Str
parts [] = []
parts (w ∷ ws) = let rest = parts ws in if is_part w then w ∷ rest else rest

-- A `.` in front of a relative path stays.
unfoldable pub relative_parts : List Str → List Str
relative_parts [] = []
relative_parts (w ∷ ws) = let rest = parts ws in if not (is_empty w) then w ∷ rest else rest

abbrev pub is_absolute : Str → Bool
is_absolute path = starts_with (codes "/") path

-- `Path::components`, the root as `/`
unfoldable pub components : Str → List Str
components path =
    if is_absolute path then codes "/" ∷ parts (split 47 path) else relative_parts (split 47 path)

-- What follows the components of a base, if they come first
unfoldable pub after_base : List Str → List Str → Option (List Str)
after_base [] path = some path
after_base (b ∷ base) [] = none
after_base (b ∷ base) (c ∷ path) =
    let rest = after_base base path in if str_eq b c then rest else none

-- `Path::starts_with`, `Path::strip_prefix` and `Path::join`
unfoldable pub path_starts_with : Str → Str → Bool
path_starts_with path base = is_some (after_base (components base) (components path))

unfoldable pub join_path : Str → Str → Str
join_path base path =
    if is_absolute path
    then path
    else if is_empty base || ends_with (codes "/") base
    then base ++ path
    else base ++ (codes "/" ++ path)

-- The last component
unfoldable pub last_of : List Str → Option Str
last_of [] = none
last_of (c ∷ []) = some c
last_of (_ ∷ c ∷ cs) = last_of (c ∷ cs)

-- `Path::file_name`
unfoldable pub file_name : Str → Option Str
file_name path = elim (last_of (components path)) [
  | none ↦ none
  | some name ↦
      if str_eq name (codes "/") || str_eq name (codes ".") || str_eq name (codes "..")
      then none
      else some name
]

-- `PathExt::is_hidden`
unfoldable pub is_hidden : Str → Bool
is_hidden path = elim (file_name path) [ none ↦ false | some name ↦ starts_with (codes ".") name ]

-- `str::replace` by `$uri`, on a fuel that is the length of the text
unfoldable pub replace_uri : ℕ → Str → Str → Str
replace_uri zero with_path s = s
replace_uri (suc fuel) with_path [] = []
replace_uri (suc fuel) with_path (c ∷ s) = elim (strip_prefix (codes "$uri") (c ∷ s)) [
  | some rest ↦ with_path ++ replace_uri fuel with_path rest
  | none ↦ c ∷ replace_uri fuel with_path s
]

-- `str::len`, in bytes of UTF-8
unfoldable pub byte_len : Str → ℕ
byte_len [] = 0
byte_len (c ∷ s) =
    (if ltb c 128 then 1 else if ltb c 2048 then 2 else if ltb c 65536 then 3 else 4) + byte_len s

-- `path[1..]`; none is the panic.
unfoldable pub skip_byte : Str → Option Str
skip_byte [] = none
skip_byte (c ∷ s) = if ltb c 128 then some s else none

-- The directories of a service
pub record Site : Type 0 where
  pub base_path : Str
  pub www_path : Str
  pub index_files : List Str
  pub try_files : List Str

-- What the disk has at a path, and the bytes that percents stand for, where they are a text
pub record Disk : Type 0 where
  pub is_dir : Str → Bool
  pub is_file : Str → Bool
  pub percent_decode : Str → Option Str

pub data Decoded : Type 0 where
  at : Str → Decoded
  not_utf8 bad_slice : Decoded

-- How the loop over `try_files` ends
pub data Tried : Type 0 where
  found : Str → Tried
  code : ℕ → Tried
  nothing panicked : Tried

module _ (disk : Disk) (site : Site) where
  -- `file_path_from_path`
  unfoldable pub file_path_from_path : Str → Decoded
  file_path_from_path path = elim (skip_byte path) [
    | none ↦ bad_slice
    | some encoded ↦ elim (disk.percent_decode encoded) [
      | none ↦ not_utf8
      | some decoded ↦ elim (after_base (components site.base_path) (components decoded)) [
        | some rest ↦ at (join_path site.www_path (join 47 rest))
        | none ↦ at (join_path site.www_path decoded)
      ]
    ]
  ]

  -- `path_is_under_base_path`
  unfoldable pub path_is_under_base_path : Str → Bool
  path_is_under_base_path path = path_starts_with path site.www_path

  -- The loop over the index files of a directory
  unfoldable pub find_index : Str → List Str → Option Str
  find_index path [] = none
  find_index path (index ∷ rest) =
      let later = find_index path rest in
      if disk.is_file (join_path path index) then some (join_path path index) else later

  -- One round of the loop, for a path that is not hidden; none goes on with the next.
  unfoldable pub try_path : Bool → Str → Option Str
  try_path is_dir path =
      if is_dir
      then if disk.is_dir path then find_index path site.index_files else none
      else if disk.is_file path
      then some path
      else none

  abbrev pub is_code : Str → Bool
  is_code token = byte_len token == 4 && starts_with (codes "=") token

  -- The status of a token `=404`; none is the panic.
  unfoldable pub token_code : Str → Option ℕ
  token_code token = elim (skip_byte token) [
    | none ↦ none
    | some digits ↦ elim (parse_u64 digits) [
      | none ↦ none
      | some n ↦ if ltb n 65536 then some n else none
    ]
  ]

  -- The loop over `try_files`, for the path of a request
  unfoldable pub try_all : Str → List Str → Tried
  try_all req_path [] = nothing
  try_all req_path (token ∷ rest) =
      let later = try_all req_path rest in
      let path = replace_uri (byte_len token) req_path token in
      if is_code token
      then elim (token_code token) [ some n ↦ code n | none ↦ panicked ]
      else elim (file_path_from_path path) [
        | bad_slice ↦ panicked
        | not_utf8 ↦ later
        | at file ↦
            if is_hidden file then later else elim (try_path (ends_with (codes "/") path) file) [
              | some p ↦ found p
              | none ↦ later
            ]
      ]
