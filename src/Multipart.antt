-- ===== src/Multipart.antt =====
-- saphir/src/multipart/mod.rs: the fields of a multipart body. The crate multer is `Raw`, a field of it, with what it
-- answers: the chunks of a field are what its `chunk` gives until it gives none.
pub mod Save
use saphir.Base.{
  ℕ, ◌+◌, Bool, List, [], ◌∷◌, ◌++◌, Option, none, some, if◌then◌else◌, Result, ok, err, ◌>>=◌,
  ok_or, unwrap_or, length,
}
use saphir.Text.{Str, codes, str_eq}
use saphir.Body.{Bytes}

pub data MultipartError (X : Type 0) : Type 0 where
  multer hyper io json form : X → MultipartError X
  not_consumed already_consumed missing_boundary finished : MultipartError X

-- `respond_with_builder`: the status of every error
abbrev pub error_code : {X : Type 0} → MultipartError X → ℕ
error_code e = 400

pub record Field (Raw : Type 0) : Type 0 where
  pub raw : Option Raw

module _ {Raw : Type 0} where
  unfoldable pub from_raw : Raw → Field Raw
  from_raw raw = record { raw = some raw }

  -- `raw.as_ref().and_then(…)` with a default
  unfoldable pub name : (Raw → Option Str) → Field Raw → Str
  name raw_name f = elim f.raw [ none ↦ [] | some raw ↦ unwrap_or (raw_name raw) [] ]

  unfoldable pub filename : (Raw → Option Str) → Field Raw → Option Str
  filename raw_file_name f = elim f.raw [ none ↦ none | some raw ↦ raw_file_name raw ]

  unfoldable pub content_type : (Raw → Option Str) → Field Raw → Str
  content_type raw_content_type f = elim f.raw [
    | none ↦ codes "text/plain"
    | some raw ↦ unwrap_or (raw_content_type raw) (codes "text/plain")
  ]

module _ {X : Type 0} where
  abbrev pub map_multer : {A : Type 0} → Result A X → Result A (MultipartError X)
  map_multer (ok a) = ok a
  map_multer (err e) = err (multer e)

  -- The loop of `save`, with the bytes in the file and their number so far; a write may fail.
  unfoldable pub save_chunks :
      (Bytes → Option X) → List (Result Bytes X) → Bytes → ℕ → Result ℕ (MultipartError X) × Bytes
  save_chunks write_fails [] file bytes_writen = (ok bytes_writen, file)
  save_chunks write_fails (err e ∷ chunks) file bytes_writen = (err (multer e), file)
  save_chunks write_fails (ok bytes ∷ chunks) file bytes_writen =
      let rest = save_chunks write_fails chunks (file ++ bytes) (bytes_writen + length bytes) in
      elim (write_fails bytes) [ some e ↦ (err (io e), file) | none ↦ rest ]

  -- `from_request`: the boundary is that of a header with `multipart/form-data`; the body is taken in any case.
  unfoldable pub boundary_of :
      {Mime : Type 0}
      → (Str → Option Mime)
      → (Mime → Bool)
      → (Mime → Option Str)
      → Option Str
      → Result Str (MultipartError X)
  boundary_of parse_mime is_form_data boundary header = elim header [
    | none ↦ err missing_boundary
    | some text ↦ elim (parse_mime text) [
      | none ↦ err missing_boundary
      | some mime ↦
          if is_form_data mime then ok_or (boundary mime) missing_boundary else err missing_boundary
    ]
  ]

module _ {Raw X : Type 0} where
  -- The raw field is taken out.
  abbrev pub taken : Field Raw → Result Raw (MultipartError X) × Field Raw
  taken f = (ok_or f.raw already_consumed, record { raw = none })

  -- `as_raw` and `as_text` on what multer reads, and the field after it
  unfoldable pub as_read :
      {A : Type 0} → (Raw → Result A X) → Field Raw → Result A (MultipartError X) × Field Raw
  as_read read f = ((taken f).0 >>= λ raw. map_multer (read raw), (taken f).1)

  -- `to_raw` and `to_text`
  unfoldable pub to_read :
      {A : Type 0} → (Raw → Result A X) → Field Raw → Result A (MultipartError X)
  to_read read f = (taken f).0 >>= λ raw. map_multer (read raw)

  -- `to_json` and `to_form`: only a field of that type is read; `parse` gives the error of its kind.
  unfoldable pub to_parsed :
      {A : Type 0}
      → (Raw → Option Str)
      → Str
      → (Raw → Result Bytes X)
      → (Bytes → Result A (MultipartError X))
      → Field Raw
      → Result (Option A) (MultipartError X)
  unfolding content_type str_eq
  to_parsed raw_content_type mime bytes parse f =
      if str_eq (content_type raw_content_type f) mime
      then ((taken f).0 >>= λ raw. map_multer (bytes raw) >>= λ b. parse b >>= λ a. ok (some a))
      else ok none

  -- `as_json` and `as_form`, and the field after it
  unfoldable pub as_parsed :
      {A : Type 0}
      → (Raw → Option Str)
      → Str
      → (Raw → Result Bytes X)
      → (Bytes → Result A (MultipartError X))
      → Field Raw
      → Result (Option A) (MultipartError X) × Field Raw
  unfolding content_type to_parsed str_eq
  as_parsed raw_content_type mime bytes parse f = (
    to_parsed raw_content_type mime bytes parse f,
    if str_eq (content_type raw_content_type f) mime then (taken f).1 else f,
  )

  -- `save`: its answer, the file where it was created, and the field after it
  unfoldable pub save :
      (Raw → List (Result Bytes X))
      → Option X
      → (Bytes → Option X)
      → Field Raw
      → Result ℕ (MultipartError X) × Option Bytes × Field Raw
  unfolding save_chunks
  save chunks create_fails write_fails f = elim f.raw [
    | none ↦ (err already_consumed, none, record { raw = none })
    | some raw ↦ elim create_fails [
      | some e ↦ (err (io e), none, record { raw = none })
      | none ↦
          let (answer, file) = save_chunks write_fails (chunks raw) [] 0 in
          (answer, some file, record { raw = none })
    ]
  ]
