-- ===== src/File/Stream/Owes.antt =====
-- What a file stream owes to its client, and what a read leaves of it.
use saphir.Base.{
  ℕ, zero, suc, ◌+◌, ◌-◌, ◌≡◌, ◌≤◌, ◌<◌, refl, true, false, List, [], ◌∷◌, ◌++◌, Option, none, some,
  inl, inr, length, Bool-cases, ok, arith, if◌then◌else◌, leb, is_empty, take, ◌==◌, ◌||◌, ap, ◌∙◌,
}
use mathlib.Core.List.{append-nil, append_assoc}
use saphir.File.Reader.{ready, Reads, Answers}
use saphir.File.Stream.{FileStream, accept_whole, accept_range, max_buffer}

-- The part of what a reader has left that the stream takes
abbrev pub clip : Option ℕ → ℕ → List ℕ → List ℕ
clip none amount left = left
clip (some range) amount left = take (range - amount) left

-- The size of the buffer that the stream reads into
abbrev pub buffer_size : Option ℕ → ℕ
buffer_size none = max_buffer
buffer_size (some range) = range

abbrev pub IsWithin : Option ℕ → ℕ → Type 0
IsWithin none amount = Unit
IsWithin (some range) amount = amount < range

take-append :
    {A : Type 0} (n : ℕ) (xs ys : List A)
    → length xs ≤ n
    → take n (xs ++ ys) ≡ xs ++ take (n - length xs) ys
take-append n [] ys h = let same : n - 0 ≡ n = omega arith in rw same refl
take-append zero (x ∷ xs) ys h = absurd (omega arith)
take-append (suc n) (x ∷ xs) ys h =
    let less : suc n - suc (length xs) ≡ n - length xs = omega arith in
    rw (take-append n xs ys (omega arith), less) refl

take-append_short :
    {A : Type 0} (n : ℕ) (xs ys : List A) → n ≤ length xs → take n (xs ++ ys) ≡ take n xs
take-append_short zero xs ys h = refl
take-append_short (suc n) [] ys h = absurd (omega arith)
take-append_short (suc n) (x ∷ xs) ys h = ap (λ r. x ∷ r) (take-append_short n xs ys (omega arith))

take-nil : {A : Type 0} (n : ℕ) → ◌≡◌ {A = List A} (take n []) []
take-nil zero = refl
take-nil (suc n) = refl

module _ {R : Type 0} (law : Reads R) where
  -- What a stream owes to its client: its buffer, and what it will still read.
  abbrev pub owes : FileStream R → List ℕ
  owes s =
      s.buffer ++ (if s.end_of_file then [] else clip s.range_len s.amount_read (law.left s.inner))

  -- The reader is sound and the range is not exhausted as long as the end is not reached.
  abbrev pub IsOpen : FileStream R → Type 0
  IsOpen s = s.end_of_file ≡ false → law.IsSound s.inner × IsWithin s.range_len s.amount_read

  -- Between two polls, nothing waits in the buffer once the end is reached.
  abbrev pub IsSteady : FileStream R → Type 0
  IsSteady s = (s.end_of_file ≡ true → s.buffer ≡ []) × IsOpen s

  pub accept_whole-owes :
      (s : FileStream R) (inner : R) (found : List ℕ)
      → s.range_len ≡ none
      → s.end_of_file ≡ false
      → Answers law s.inner (inner, ready (ok found))
      → IsOpen (accept_whole s inner found) × (owes (accept_whole s inner found) ≡ owes s)
  unfolding accept_whole
  accept_whole-owes s inner [] w e (sound, same, ends) =
      (λ h. absurd cc, rw (w, e, ends refl) (append-nil (s.buffer ++ [])))
  accept_whole-owes s inner (x ∷ xs) w e (sound, same, ends) =
      (λ _. (sound, rw w tt), rw (w, e, same) (append_assoc s.buffer (x ∷ xs) (law.left inner)))

  pub accept_range-owes :
      (range : ℕ) (s : FileStream R) (inner : R) (found : List ℕ)
      → s.range_len ≡ some range
      → s.end_of_file ≡ false
      → IsOpen s
      → Answers law s.inner (inner, ready (ok found))
      → IsOpen (accept_range range s inner found)
        × (owes (accept_range range s inner found) ≡ owes s)
  unfolding accept_range
  accept_range-owes range s inner found w e opened (sound, same, ends) =
      elim (Bool-cases (leb (length found + s.amount_read) range)) [
        | inr long ↦
            let enough : range - s.amount_read ≤ length found = ground arith in
            rw
              (
                long,
                w,
                e,
                same,
                take-append_short (range - s.amount_read) found (law.left inner) enough,
              )
              (λ h. absurd cc, append-nil (s.buffer ++ take (range - s.amount_read) found))
        | inl fits ↦
            let room : length found ≤ range - s.amount_read = ground arith in
            rw (fits, w, e)
              (fit found room (same ∙ refl) ends
                (take-append (range - s.amount_read) found (law.left inner) room))
      ]
    where
      fit :
          (found : List ℕ)
          → length found ≤ range - s.amount_read
          → law.left s.inner ≡ found ++ law.left inner
          → (found ≡ [] → law.left s.inner ≡ [])
          → take (range - s.amount_read) (found ++ law.left inner)
            ≡ found ++ take (range - s.amount_read - length found) (law.left inner)
          → ((is_empty found || (s.amount_read + length found) == range) ≡ false
              → law.IsSound inner × (s.amount_read + length found < range))
            × ((s.buffer ++ found)
                  ++ (if is_empty found || (s.amount_read + length found) == range
                      then []
                      else take (range - (s.amount_read + length found)) (law.left inner))
                ≡ s.buffer ++ take (range - s.amount_read) (law.left s.inner))
      fit [] room same ends taken = (
        λ h. absurd cc,
        rw (ends refl, take-nil (range - s.amount_read)) (append-nil (s.buffer ++ [])),
      )
      fit (x ∷ xs) room same ends taken =
          elim (Bool-cases ((s.amount_read + length (x ∷ xs)) == range)) [
            | inl full ↦
                let none_left : range - s.amount_read - length (x ∷ xs) ≡ 0 = ground arith in
                rw (full, same, taken, none_left)
                  (λ h. absurd cc, append_assoc s.buffer (x ∷ xs) [])
            | inr more ↦
                let rest : range - s.amount_read - length (x ∷ xs)
                    ≡ range - (s.amount_read + length (x ∷ xs)) =
                  omega arith in
                rw (more, same, taken, rest)
                  (
                    λ _. (sound, ground arith),
                    append_assoc s.buffer (x ∷ xs)
                        (take (range - (s.amount_read + length (x ∷ xs))) (law.left inner)),
                  )
          ]

  pub accept_whole-range_len :
      (s : FileStream R) (inner : R) (found : List ℕ)
      → (accept_whole s inner found).range_len ≡ s.range_len
  unfolding accept_whole
  accept_whole-range_len s inner found = refl

  pub accept_range-range_len :
      (range : ℕ) (s : FileStream R) (inner : R) (found : List ℕ)
      → (accept_range range s inner found).range_len ≡ s.range_len
  unfolding accept_range
  accept_range-range_len range s inner found =
      elim (Bool-cases (leb (length found + s.amount_read) range)) [
        | inl e ↦ rw e refl
        | inr e ↦ rw e refl
      ]
