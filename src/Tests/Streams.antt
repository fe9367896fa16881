-- ===== src/Tests/Streams.antt =====
-- Streams of files and the compressions.
use saphir.Base.{
  [], ℕ, ◌≡◌, refl, sym, true, List, ◌++◌, none, some, Result, ok, is_some, arith, take, drop,
  length,
}
use saphir.Text.{codes}
use saphir.File.Reader.{
  IoError, ready, FileCursor, new_cursor, cursor_file, read_file_cursor, seek_file_cursor,
  seek_cursor, read_cursor,
}
use saphir.File.Stream.{
  FileStream, new_stream, poll_next, polls, fill, fill_whole, match_read, accept_whole, leave,
}
use saphir.File.Stream.Owes.{owes, IsSteady}
use saphir.File.Stream.Ends.{poll_next-is_some}
use saphir.File.Stream.Refines.{Follows, poll_next-Follows}
use saphir.File.Stream.Completes.{polls_complete}
use saphir.File.Stream.Ranged.{ranged, polls-ranged}
use saphir.File.Compression.{
  gzip, Encoders, no_encoder, compress_file, encode, choose_encoder, write_all, finish,
  match_polled,
}
use saphir.File.Compression.Lossless.{Decodes, decode-compress_file}
use saphir.File.Compression.Ends.{compress_file-is_some}
use saphir.File.Cache.Entries.{cache_key}
use saphir.File.Cache.Reader.{cursor_law, read_file_cursor-IsReader, read_file_cursor-IsPrompt}

abbrev pub letters : List ℕ
letters = codes "abcdef"

abbrev in_memory_file : FileCursor
in_memory_file = new_cursor letters none (codes "/www/letters.txt")

abbrev whole : FileStream FileCursor
whole = new_stream in_memory_file

whole-IsSteady : IsSteady cursor_law whole
unfolding new_stream
whole-IsSteady = (λ h. absurd cc, λ _. (tt, tt))

poll_next-is_some_example : is_some (poll_next cursor_file whole) ≡ true
poll_next-is_some_example = poll_next-is_some cursor_file whole

abbrev at_end : FileCursor
at_end = record in_memory_file { inner = record { bytes = letters; position = 6 } }

poll_next-Follows_example :
    Follows cursor_file cursor_law whole
      (record whole { inner = at_end; end_of_file = true }, ready (some (ok letters)))
unfolding poll_next fill fill_whole match_read accept_whole leave new_stream read_file_cursor
    read_cursor new_cursor
poll_next-Follows_example =
    poll_next-Follows cursor_file cursor_law whole (read_file_cursor-IsReader 65534 (omega arith))
      whole-IsSteady refl

polls_complete_example :
    (last : FileStream FileCursor) × (polls cursor_file 8 whole
      ≡ some (owes cursor_law whole, last))
    × (last.end_of_file ≡ true)
unfolding new_stream new_cursor
polls_complete_example =
    polls_complete cursor_file cursor_law 8 whole (omega arith)
      (read_file_cursor-IsReader 65534 (omega arith)) (read_file_cursor-IsPrompt 65534)
      whole-IsSteady

polls-ranged_example :
    (received : List ℕ) × (last : FileStream FileCursor) × (polls cursor_file 5
        (ranged cursor_file cursor_law 1 3 in_memory_file)
      ≡ some (received, last))
    × (received ≡ take 3 (drop 1 letters))
    × (length received ≡ 3)
    × (last.end_of_file ≡ true)
unfolding seek_file_cursor seek_cursor new_cursor
polls-ranged_example =
    polls-ranged cursor_file cursor_law in_memory_file
      (record in_memory_file { inner = record { bytes = letters; position = 1 } }) 1 3 1 5 letters
      refl tt refl (omega arith) (omega arith) (omega arith) (omega arith)
      (read_file_cursor-IsReader 3 (omega arith)) (read_file_cursor-IsPrompt 3)

-- Encoders that keep the bytes as they are
abbrev pub append_bytes : List ℕ → List ℕ → Result (List ℕ) IoError
append_bytes buf e = ok (e ++ buf)

abbrev pub keep_bytes : List ℕ → Result (List ℕ) IoError
keep_bytes e = ok e

abbrev pub plain : Encoders (List ℕ) (List ℕ) (List ℕ)
plain = record {
  new_gzip = [];
  write_gzip = append_bytes;
  finish_gzip = keep_bytes;
  new_deflate = [];
  write_deflate = append_bytes;
  finish_deflate = keep_bytes;
  new_brotli = [];
  write_brotli = append_bytes;
  flush_brotli = keep_bytes;
  into_inner = λ e. e;
}

pub appended : (buf e next : List ℕ) → append_bytes buf e ≡ ok next → next ≡ e ++ buf
appended buf e next h = let same : e ++ buf ≡ next = cc in sym same

pub same_bytes : (e bytes : List ℕ) → keep_bytes e ≡ ok bytes → bytes ≡ e
same_bytes e bytes h = let same : e ≡ bytes = cc in sym same

abbrev pub plain_Decodes : Decodes plain
plain_Decodes = record {
  decode = λ c bytes. bytes;
  held_gzip = λ e. e;
  held_deflate = λ e. e;
  held_brotli = λ e. e;
  raw_same = λ bytes. refl;
  gzip_new = refl;
  gzip_write = appended;
  gzip_finish = same_bytes;
  deflate_new = refl;
  deflate_write = appended;
  deflate_finish = same_bytes;
  brotli_new = refl;
  brotli_write = appended;
  brotli_flush = same_bytes;
}

decode-compress_file_example : plain_Decodes.decode gzip letters ≡ cursor_law.left in_memory_file
unfolding compress_file encode match_polled choose_encoder write_all finish read_file_cursor
    read_cursor new_cursor
decode-compress_file_example =
    decode-compress_file plain plain_Decodes cursor_file cursor_law gzip 3 in_memory_file letters
      (read_file_cursor-IsReader 65534 (omega arith)) tt refl

compress_file-is_some_example :
    is_some (compress_file plain cursor_file 7 in_memory_file no_encoder gzip) ≡ true
unfolding new_cursor
compress_file-is_some_example =
    compress_file-is_some plain cursor_file cursor_law 7 in_memory_file no_encoder gzip
      (omega arith) (read_file_cursor-IsReader 65534 (omega arith))
      (read_file_cursor-IsPrompt 65534) tt
