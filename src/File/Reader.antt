-- ===== src/File/Reader.antt =====
-- saphir/src/file/mod.rs: what a file is to its readers, `SaphirFile`, with the file on the disk and the
-- one in memory. A poll answers with the bytes that it put at the start of the buffer; a seek is taken to
-- its result.
use saphir.Base.{
  ℕ, ◌+◌, ◌-◌, ◌≡◌, Bool, true, false, List, [], ◌++◌, Option, none, some, if◌then◌else◌, leb,
  length, take, drop, Result, ok, err,
}
use saphir.Text.{Str}

pub data IoError : Type 0 where
  broken_pipe interrupted invalid_input : IoError
  os_error : ℕ → IoError

pub data Poll {ℓ} (A : Type ℓ) : Type ℓ where
  ready : A → Poll A
  pending : Poll A

-- A signed offset: forward, or back by one more than the number.
pub data Offset : Type 0 where
  forward : ℕ → Offset
  back_suc : ℕ → Offset

pub data SeekFrom : Type 0 where
  start : ℕ → SeekFrom
  current finish : Offset → SeekFrom

-- The trait: reading into a buffer of a size, seeking, and `FileInfo`.
pub record SaphirFile (R : Type 0) : Type 0 where
  pub poll_read : ℕ → R → R × Poll (Result (List ℕ) IoError)
  pub seek : SeekFrom → R → R × Result ℕ IoError
  pub get_path : R → Str
  pub get_mime : R → Option Str
  pub get_size : R → ℕ

-- What a position and an offset make; none where it would be negative.
unfoldable pub moved : ℕ → Offset → Option ℕ
moved position (forward n) = some (position + n)
moved position (back_suc n) = if leb (n + 1) position then some (position - (n + 1)) else none

-- `Cursor` of the standard library: a position over bytes in memory
pub record Cursor : Type 0 where
  pub bytes : List ℕ
  pub position : ℕ

unfoldable pub read_cursor : ℕ → Cursor → Cursor × List ℕ
read_cursor size c =
    let found = take size (drop c.position c.bytes) in
    (record c { position = c.position + length found }, found)

unfoldable pub seek_cursor : SeekFrom → Cursor → Cursor × Result ℕ IoError
seek_cursor (start n) c = (record c { position = n }, ok n)
seek_cursor (current offset) c = elim (moved c.position offset) [
  | some n ↦ (record c { position = n }, ok n)
  | none ↦ (c, err invalid_input)
]
seek_cursor (finish offset) c = elim (moved (length c.bytes) offset) [
  | some n ↦ (record c { position = n }, ok n)
  | none ↦ (c, err invalid_input)
]

pub record FileCursor : Type 0 where
  pub inner : Cursor
  pub mime : Option Str
  pub path : Str
  pub size : ℕ

unfoldable pub new_cursor : List ℕ → Option Str → Str → FileCursor
new_cursor inner mime path = record {
  inner = record { bytes = inner; position = 0 };
  mime = mime;
  path = path;
  size = length inner;
}

unfoldable pub read_file_cursor : ℕ → FileCursor → FileCursor × Poll (Result (List ℕ) IoError)
read_file_cursor size f =
    let (inner, found) = read_cursor size f.inner in (record f { inner = inner }, ready (ok found))

unfoldable pub seek_file_cursor : SeekFrom → FileCursor → FileCursor × Result ℕ IoError
seek_file_cursor pos f =
    let (inner, result) = seek_cursor pos f.inner in (record f { inner = inner }, result)

abbrev pub cursor_file : SaphirFile FileCursor
cursor_file = record {
  poll_read = read_file_cursor;
  seek = seek_file_cursor;
  get_path = λ f. f.path;
  get_mime = λ f. f.mime;
  get_size = λ f. f.size;
}

-- The file on the disk, over tokio's
pub record File (T : Type 0) : Type 0 where
  pub inner : T
  pub path : Str
  pub mime : Option Str
  pub seek_has_started : Bool

module _ {T : Type 0} (open_tokio : Str → Result T IoError) where
  -- `File::open`
  unfoldable pub open_disk : Str → Result (File T) IoError
  open_disk path = elim (open_tokio path) [
    | ok file ↦ ok (record { inner = file; path = path; mime = none; seek_has_started = false })
    | err e ↦ err e
  ]

module _ {T : Type 0} (start_seek : SeekFrom → T → T × Option IoError)
    (poll_complete : T → T × Poll (Result ℕ IoError)) where
  -- The second `match` of `poll_seek`
  unfoldable pub complete : File T → File T × Poll (Result ℕ IoError)
  complete f =
      let (inner, polled) = poll_complete f.inner in
      elim polled [
        | ready result ↦ (record f { inner = inner; seek_has_started = false }, ready result)
        | pending ↦ (record f { inner = inner }, pending)
      ]

  -- `poll_seek` of a file
  unfoldable pub poll_seek : SeekFrom → File T → File T × Poll (Result ℕ IoError)
  poll_seek pos f =
      if f.seek_has_started
      then complete f
      else let (inner, refused) = start_seek pos f.inner in
        elim refused [
          | none ↦ complete (record f { inner = inner; seek_has_started = true })
          | some e ↦ (record f { inner = inner }, ready (err e))
        ]

-- What makes a reader faithful, for a buffer of one size: states that keep their promise, and what each
-- has left to read. An error promises nothing of what comes after it.
pub record Reads (R : Type 0) : Type 1 where
  pub IsSound : R → Type 0
  pub left : R → List ℕ

abbrev pub Answers : {R : Type 0} → Reads R → R → R × Poll (Result (List ℕ) IoError) → Type 0
Answers law r (next, ready (ok found)) =
    law.IsSound next × (law.left r ≡ found ++ law.left next) × (found ≡ [] → law.left r ≡ [])
Answers law r (next, ready (err e)) = Unit
Answers law r (next, pending) = law.IsSound next × (law.left next ≡ law.left r)

abbrev pub IsReader : {R : Type 0} → SaphirFile R → ℕ → Reads R → Type 0
IsReader file size law = (r : _) → law.IsSound r → Answers law r (file.poll_read size r)
