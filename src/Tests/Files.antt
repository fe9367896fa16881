-- ===== src/Tests/Files.antt =====
-- Ranges, entity tags and conditional requests of saphir/src/file.
use saphir.Base.{ℕ, ◌≡◌, ◌≢◌, refl, ap, true, false, List, [], ◌∷◌, Option, some, All, arith}
use saphir.Text.{Str, codes, str_eq, contains_char}
use saphir.Text.Laws.{str_eq_iff}
use saphir.Http.{Request}
use saphir.File.Range.{
  ByteRangeSpec, from_to, all_from, last, bytes, print_range, parse_range, to_satisfiable_range,
}
use saphir.File.Range.Bounds.{asks_for, selects, selects-to_satisfiable_range}
use saphir.File.Range.RoundTrip.{IsValid, parse_range-print_range}
use saphir.File.Etag.{weak, parse_tag, get_tag, text_of}
use saphir.File.Etag.Laws.{parse_tag-get_tag}

selects-to_satisfiable_range_example :
    selects (to_satisfiable_range (last 2) 3) 1 ≡ asks_for (last 2) 3 1
selects-to_satisfiable_range_example = selects-to_satisfiable_range (last 2) 3 1

abbrev asked : List ByteRangeSpec
asked = from_to 1 100 ∷ all_from 200 ∷ last 5 ∷ []

asked-IsValid : All IsValid asked
asked-IsValid = ((omega arith, omega arith), (omega arith, (omega arith, tt)))

parse_range-print_range_example : parse_range (print_range (bytes asked)) ≡ some (bytes asked)
parse_range-print_range_example = parse_range-print_range asked (λ e. cc) asked-IsValid

ab_is_not_w : weak (codes "ab") ≢ weak (codes "W/")
unfolding str_eq
ab_is_not_w e =
    let apart : false ≡ true = (str_eq_iff (codes "ab") (codes "W/")).1 (ap text_of e) in cc apart

parse_tag-get_tag_example : parse_tag (get_tag (weak (codes "ab"))) ≡ weak (codes "ab")
unfolding contains_char
parse_tag-get_tag_example = parse_tag-get_tag (weak (codes "ab")) refl ab_is_not_w

abbrev to_str : Str → Option Str
to_str s = some s

abbrev no_date : Str → Option ℕ
no_date s = some 5

abbrev asked_by : Request
asked_by = record {
  method = codes "POST";
  path = codes "/file";
  headers =
      (codes "if-match", codes "\"1\",\"2\"")
      ∷ (codes "range", codes "bytes=0-1")
      ∷ (codes "if-range", codes "\"2\"")
      ∷ [];
  captures = [];
}
