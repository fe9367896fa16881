-- ===== src/File/Stream.antt =====
-- saphir/src/file/mod.rs: a file as a stream of chunks, `FileStream`, whole or one range of it. Each
-- `while` loop of `poll_next` has a fuel; none is a loop that ran out of it.
pub mod Ends
pub mod Owes
pub mod Yields
pub mod Refines
pub mod Prompt
pub mod Completes
pub mod Ranged
use saphir.Base.{
  ℕ, zero, suc, ◌+◌, ◌-◌, ◌%◌, Bool, true, false, not, ◌&&◌, ◌||◌, ◌==◌, List, [], ◌++◌, Option,
  none, some, if◌then◌else◌, leb, ltb, length, take, is_empty, Result, ok, err,
}
use saphir.Text.Decimal.{u64_limit}
use saphir.File.Reader.{IoError, Poll, ready, pending, SaphirFile, start}

abbrev pub max_buffer : ℕ
max_buffer = 65534

pub record FileStream (R : Type 0) : Type 0 where
  pub inner : R
  pub buffer : List ℕ
  pub end_of_file : Bool
  pub range_len : Option ℕ
  pub amount_read : ℕ

-- How a loop of `poll_next` is left: its condition fails, the reader fails, or has nothing yet.
pub data Exit : Type 0 where
  filled blocked : Exit
  failed : IoError → Exit

unfoldable pub new_stream : {R : Type 0} → R → FileStream R
new_stream inner = record {
  inner = inner;
  buffer = [];
  end_of_file = false;
  range_len = none;
  amount_read = 0;
}

-- Both loops add what was read; `found` is `buffer[0..s]`.
unfoldable pub accept_range : {R : Type 0} → ℕ → FileStream R → R → List ℕ → FileStream R
accept_range range s inner found =
    if leb (length found + s.amount_read) range
    then record s {
      inner = inner;
      buffer = s.buffer ++ found;
      amount_read = s.amount_read + length found;
      end_of_file = is_empty found || (s.amount_read + length found) == range;
    }
    else record s {
      inner = inner;
      buffer = s.buffer ++ take (range - s.amount_read) found;
      end_of_file = true;
    }

unfoldable pub accept_whole : {R : Type 0} → FileStream R → R → List ℕ → FileStream R
accept_whole s inner found = record s {
  inner = inner;
  buffer = s.buffer ++ found;
  end_of_file = is_empty found;
}

abbrev pub wants_range : {R : Type 0} → ℕ → FileStream R → Bool
wants_range range s = ltb s.amount_read range && not s.end_of_file

abbrev pub wants_whole : {R : Type 0} → FileStream R → Bool
wants_whole s = ltb (length s.buffer) max_buffer && not s.end_of_file

-- The `match` in the loops: what goes on with the stream that accepted a read, and the other exits
unfoldable pub match_read :
    {R : Type 0}
    → (FileStream R → Option (FileStream R × Exit))
    → (FileStream R → R → List ℕ → FileStream R)
    → FileStream R
    → R × Poll (Result (List ℕ) IoError)
    → Option (FileStream R × Exit)
match_read next accept s (inner, ready (ok found)) = next (accept s inner found)
match_read next accept s (inner, ready (err e)) = some (record s { inner = inner }, failed e)
match_read next accept s (inner, pending) = some (record s { inner = inner }, blocked)

-- What `poll_next` answers when the loop is left
unfoldable pub leave :
    {R : Type 0} → FileStream R × Exit → FileStream R × Poll (Option (Result (List ℕ) IoError))
leave (s, filled) = (record s { buffer = [] }, ready (some (ok s.buffer)))
leave (s, blocked) = (s, pending)
leave (s, failed e) = (s, ready (some (err e)))

-- A client takes a chunk and polls again, polls again where it has to wait, and stops otherwise.
abbrev pub prepend : {R : Type 0} → List ℕ → Option (List ℕ × R) → Option (List ℕ × R)
prepend chunk none = none
prepend chunk (some (more, last)) = some (chunk ++ more, last)

abbrev pub receive :
    {R : Type 0}
    → (R → Option (List ℕ × R))
    → Option (R × Poll (Option (Result (List ℕ) IoError)))
    → Option (List ℕ × R)
receive next none = none
receive next (some (s, pending)) = next s
receive next (some (s, ready none)) = some ([], s)
receive next (some (s, ready (some (ok chunk)))) = prepend chunk (next s)
receive next (some (s, ready (some (err e)))) = some ([], s)

module _ {R : Type 0} (file : SaphirFile R) where
  -- `set_range`
  unfoldable pub set_range : ℕ → ℕ → FileStream R → FileStream R × Result (Unit {0}) IoError
  set_range from to s =
      let (inner, sought) = file.seek (start from) s.inner in
      elim sought [
        | err e ↦ (record s { inner = inner }, err e)
        | ok _ ↦ (
          record s {
            inner = inner;
            range_len = some (((to + u64_limit - from) % u64_limit + 1) % u64_limit);
          },
          ok tt,
        )
      ]

  -- The `while` loops of `poll_next`
  unfoldable pub fill_range : ℕ → ℕ → FileStream R → Option (FileStream R × Exit)
  fill_range zero range s = none
  fill_range (suc fuel) range s = elim (wants_range range s) [
    | true ↦
        match_read (fill_range fuel range) (accept_range range) s (file.poll_read range s.inner)
    | false ↦ some (s, filled)
  ]

  unfoldable pub fill_whole : ℕ → FileStream R → Option (FileStream R × Exit)
  fill_whole zero s = none
  fill_whole (suc fuel) s = elim (wants_whole s) [
    | true ↦ match_read (fill_whole fuel) accept_whole s (file.poll_read max_buffer s.inner)
    | false ↦ some (s, filled)
  ]

  unfoldable pub fill : FileStream R → Option (FileStream R × Exit)
  fill s = elim s.range_len [
    | some range ↦ fill_range (suc (suc range)) range s
    | none ↦ fill_whole (suc (suc max_buffer)) s
  ]

  unfoldable pub poll_next :
      FileStream R → Option (FileStream R × Poll (Option (Result (List ℕ) IoError)))
  poll_next s =
      if s.end_of_file
      then some (s, ready none)
      else elim (fill s) [ none ↦ none | some exit ↦ some (leave exit) ]

  -- What a client that polls a number of times gets: the chunks, and the stream that is left. It stops
  -- at the end and at an error.
  abbrev pub polls : ℕ → FileStream R → Option (List ℕ × FileStream R)
  polls zero s = some ([], s)
  polls (suc n) s = receive (polls n) (poll_next s)
