-- ===== src/File/Service/Defaults.antt =====
-- The builder of the file service, and its defaults.
use saphir.Base.{ℕ, List, [], ◌∷◌, map, Option, none, some, unwrap_or}
use saphir.Text.{Str, codes, split, trim}
use saphir.Text.Laws.{str_key}
use saphir.File.Service.{FileMiddleware}

-- `FileMiddlewareBuilder`
pub record FileMiddlewareBuilder (H : Type 0) : Type 0 where
  pub base_path : Str
  pub www_path : Str
  pub index_files : Option (List Str)
  pub try_files : Option (List Str)
  pub max_file_size : Option ℕ
  pub max_capacity : Option ℕ
  pub file_not_found_handler : Option H
  pub max_age : ℕ

abbrev pub default_index_files : List Str
default_index_files = codes "index.html" ∷ codes "index.htm" ∷ []

abbrev pub default_try_files : List Str
default_try_files = codes "$uri" ∷ codes "$uri/" ∷ []

module _ {H : Type 0} where
  unfoldable pub new_service_builder : Str → Str → FileMiddlewareBuilder H
  new_service_builder base_path www_path = record {
    base_path = base_path;
    www_path = www_path;
    index_files = none;
    try_files = none;
    max_file_size = none;
    max_capacity = none;
    file_not_found_handler = none;
    max_age = 0;
  }

  unfoldable pub index_files : Str → FileMiddlewareBuilder H → FileMiddlewareBuilder H
  index_files files b = record b { index_files = some (map trim (split 32 files)) }

  unfoldable pub no_directory_index : FileMiddlewareBuilder H → FileMiddlewareBuilder H
  no_directory_index b = record b { index_files = some [] }

  unfoldable pub try_files : Str → FileMiddlewareBuilder H → FileMiddlewareBuilder H
  try_files files b = record b { try_files = some (map trim (split 32 files)) }

  unfoldable pub build_service : FileMiddlewareBuilder H → FileMiddleware H
  build_service b = record {
    site = record {
      base_path = b.base_path;
      www_path = b.www_path;
      index_files = unwrap_or b.index_files default_index_files;
      try_files = unwrap_or b.try_files default_try_files;
    };
    limits = record {
      max_file_size = unwrap_or b.max_file_size 2097152;
      max_capacity = unwrap_or b.max_capacity 536870912;
    };
    file_not_found_handler = b.file_not_found_handler;
    max_age = b.max_age;
  }

  -- `FileMiddleware::new`
  unfoldable pub new_service : Str → Str → FileMiddleware H
  new_service base_path www_path = record {
    site = record {
      base_path = base_path;
      www_path = www_path;
      index_files = default_index_files;
      try_files = default_try_files;
    };
    limits = record { max_file_size = 2097152; max_capacity = 536870912 };
    file_not_found_handler = none;
    max_age = 0;
  }
