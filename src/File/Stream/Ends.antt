-- ===== src/File/Stream/Ends.antt =====
-- The loops of a file stream end, whatever the reader answers.
use saphir.Base.{
  ℕ, zero, suc, ◌+◌, ◌≡◌, ◌<◌, refl, Bool, true, false, List, [], ◌∷◌, Option, ◌⊎◌, inl, inr,
  is_some, length, length-append, Bool-cases, Option-cases, Result, ok, err, arith,
}
use saphir.File.Reader.{SaphirFile, IoError, Poll, ready, pending}
use saphir.File.Stream.{
  FileStream, Exit, fill_whole, fill_range, fill, poll_next, match_read, accept_whole, accept_range,
  max_buffer, wants_whole, wants_range,
}

-- What is left of the fuel after a read is still enough.
closer :
    (fuel limit before after : ℕ) (ended ends : Bool)
    → (ended ≡ true) ⊎ (limit < suc fuel + before)
    → ended ≡ false
    → (ends ≡ true) ⊎ (before < after)
    → (ends ≡ true) ⊎ (limit < fuel + after)
closer fuel limit before after ended ends h e (inl end) = inl end
closer fuel limit before after ended ends (inl h) e (inr more) = absurd cc
closer fuel limit before after ended ends (inr h) e (inr more) = inr (omega arith)

module _ {R : Type 0} where
  accept_whole-Closer :
      (s : FileStream R) (inner : R) (found : List ℕ)
      → ((accept_whole s inner found).end_of_file ≡ true)
        ⊎ (length s.buffer < length (accept_whole s inner found).buffer)
  unfolding accept_whole
  accept_whole-Closer s inner [] = inl refl
  accept_whole-Closer s inner (x ∷ xs) = inr (ground (arith, length-append s.buffer (x ∷ xs)))

  accept_range-Closer :
      (range : ℕ) (s : FileStream R) (inner : R) (found : List ℕ)
      → ((accept_range range s inner found).end_of_file ≡ true)
        ⊎ (s.amount_read < (accept_range range s inner found).amount_read)
  unfolding accept_range
  accept_range-Closer range s inner [] = ground arith
  accept_range-Closer range s inner (x ∷ xs) = ground arith

  match_read-is_some :
      (next : FileStream R → Option (FileStream R × Exit))
      (accept : FileStream R → R → List ℕ → FileStream R) (s : FileStream R)
      (polled : R × Poll (Result (List ℕ) IoError))
      → ((inner : R) (found : List ℕ) → is_some (next (accept s inner found)) ≡ true)
      → is_some (match_read next accept s polled) ≡ true
  unfolding match_read
  match_read-is_some next accept s (inner, ready (ok found)) h = h inner found
  match_read-is_some next accept s (inner, ready (err e)) h = refl
  match_read-is_some next accept s (inner, pending) h = refl

  wants_whole-open : (s : FileStream R) → wants_whole s ≡ true → s.end_of_file ≡ false
  wants_whole-open s w = ground arith

  wants_range-open :
      (range : ℕ) (s : FileStream R) → wants_range range s ≡ true → s.end_of_file ≡ false
  wants_range-open range s w = ground arith

module _ {R : Type 0} (file : SaphirFile R) where
  -- A fuel that is more than the room in the buffer, or any fuel at the end of the file, is enough.
  fill_whole-is_some :
      (fuel : ℕ) (s : FileStream R)
      → (s.end_of_file ≡ true) ⊎ (max_buffer < fuel + length s.buffer)
      → is_some (fill_whole file (suc fuel) s) ≡ true
  unfolding fill_whole
  fill_whole-is_some zero s h = ground arith
  fill_whole-is_some (suc fuel) s h = elim (Bool-cases (wants_whole s)) [
    | inr w ↦ rw (w, fill_whole) refl
    | inl w ↦
        rw (w, fill_whole)
          (match_read-is_some (fill_whole file (suc fuel)) accept_whole s
            (file.poll_read max_buffer s.inner)
            λ inner found. fill_whole-is_some fuel (accept_whole s inner found) (
              closer fuel max_buffer (length s.buffer) (length (accept_whole s inner found).buffer)
                s.end_of_file (accept_whole s inner found).end_of_file h (wants_whole-open s w)
                (accept_whole-Closer s inner found)))
  ]

  fill_range-is_some :
      (fuel range : ℕ) (s : FileStream R)
      → (s.end_of_file ≡ true) ⊎ (range < fuel + s.amount_read)
      → is_some (fill_range file (suc fuel) range s) ≡ true
  unfolding fill_range
  fill_range-is_some zero range s h = ground arith
  fill_range-is_some (suc fuel) range s h = elim (Bool-cases (wants_range range s)) [
    | inr w ↦ rw (w, fill_range) refl
    | inl w ↦
        rw (w, fill_range)
          (match_read-is_some (fill_range file (suc fuel) range) (accept_range range) s
            (file.poll_read range s.inner)
            λ inner found. fill_range-is_some fuel range (accept_range range s inner found) (
              closer fuel range s.amount_read (accept_range range s inner found).amount_read
                s.end_of_file (accept_range range s inner found).end_of_file h
                (wants_range-open range s w) (accept_range-Closer range s inner found)))
  ]

  pub fill-is_some : (s : FileStream R) → is_some (fill file s) ≡ true
  unfolding fill
  fill-is_some s = elim (Option-cases s.range_len) [
    | inl whole ↦ rw (whole, fill) (fill_whole-is_some (suc max_buffer) s (inr (omega arith)))
    | inr (range, e) ↦ rw (e, fill) (fill_range-is_some (suc range) range s (inr (omega arith)))
  ]

  -- A poll of a file stream answers: its loops end, for every reader and in every state of the stream.
  pub poll_next-is_some : (s : FileStream R) → is_some (poll_next file s) ≡ true
  unfolding poll_next
  poll_next-is_some s = elim (Option-cases (fill file s)) [
    | inl none_left ↦
        let found : is_some (fill file s) ≡ true = fill-is_some s in absurd (ground arith)
    | inr (exit, e) ↦ rw (e, poll_next) (ground arith)
  ]
