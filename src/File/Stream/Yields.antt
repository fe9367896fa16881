-- ===== src/File/Stream/Yields.antt =====
-- The loops of a file stream keep what it owes.
use saphir.Base.{
  ℕ, zero, suc, ◌≡◌, refl, false, List, Option, none, some, inl, inr, Bool-cases, Result, ok, err,
  arith, ◌∙◌,
}
use saphir.File.Reader.{SaphirFile, IoError, Poll, ready, pending, Reads, Answers, IsReader}
use saphir.File.Stream.{
  FileStream, Exit, fill_whole, fill_range, match_read, accept_whole, accept_range, max_buffer,
  wants_whole, wants_range, filled, blocked, failed,
}
use saphir.File.Stream.Owes.{
  owes, IsOpen, accept_whole-owes, accept_range-owes, accept_whole-range_len,
  accept_range-range_len,
}

module _ {R : Type 0} (law : Reads R) where
  abbrev pub Keeps : FileStream R → FileStream R × Exit → Type 0
  Keeps s (t, filled) = IsOpen law t × (owes law t ≡ owes law s) × (t.range_len ≡ s.range_len)
  Keeps s (t, blocked) =
      IsOpen law t
      × (owes law t ≡ owes law s)
      × (t.range_len ≡ s.range_len)
      × (t.end_of_file ≡ false)
  Keeps s (t, failed e) = Unit

  abbrev pub Kept : FileStream R → Option (FileStream R × Exit) → Type 0
  Kept s none = Unit
  Kept s (some exit) = Keeps s exit

  Kept-trans :
      (s t : FileStream R) (o : Option (FileStream R × Exit))
      → owes law t ≡ owes law s
      → t.range_len ≡ s.range_len
      → Kept t o
      → Kept s o
  Kept-trans s t none e l k = tt
  Kept-trans s t (some (u, filled)) e l (opened, k, m) = (opened, k ∙ e, m ∙ l)
  Kept-trans s t (some (u, blocked)) e l (opened, k, m, more) = (opened, k ∙ e, m ∙ l, more)
  Kept-trans s t (some (u, failed x)) e l k = tt

  match_read-Kept :
      (next : FileStream R → Option (FileStream R × Exit))
      (accept : FileStream R → R → List ℕ → FileStream R) (s : FileStream R)
      (polled : R × Poll (Result (List ℕ) IoError))
      → s.end_of_file ≡ false
      → IsOpen law s
      → Answers law s.inner polled
      → ((inner : R) (found : List ℕ)
          → Answers law s.inner (inner, ready (ok found))
          → (owes law (accept s inner found) ≡ owes law s)
            × ((accept s inner found).range_len ≡ s.range_len)
            × Kept (accept s inner found) (next (accept s inner found)))
      → Kept s (match_read next accept s polled)
  unfolding match_read
  match_read-Kept next accept s (inner, ready (ok found)) more opened answers go =
      let (same, range, kept) = go inner found answers in
      Kept-trans s (accept s inner found) (next (accept s inner found)) same range kept
  match_read-Kept next accept s (inner, ready (err e)) more opened answers go = tt
  match_read-Kept next accept s (inner, pending) more opened (sound, same) go =
      (λ h. (sound, (opened more).1), rw same refl, refl, more)

module _ {R : Type 0} (file : SaphirFile R) (law : Reads R) where
  pub fill_whole-Kept :
      (fuel : ℕ) (s : FileStream R)
      → IsReader file max_buffer law
      → s.range_len ≡ none
      → IsOpen law s
      → Kept law s (fill_whole file fuel s)
  unfolding fill_whole
  fill_whole-Kept zero s reads w opened = tt
  fill_whole-Kept (suc fuel) s reads w opened = elim (Bool-cases (wants_whole s)) [
    | inr e ↦ rw (e, fill_whole) (opened, refl, refl)
    | inl e ↦
        let more : s.end_of_file ≡ false = ground arith in
        rw (e, fill_whole)
          (match_read-Kept law (fill_whole file fuel) accept_whole s
            (file.poll_read max_buffer s.inner) more opened (reads s.inner (opened more).0)
            λ inner found answers.
              let (opens, same) = accept_whole-owes law s inner found w more answers in
              (
                same,
                accept_whole-range_len law s inner found,
                fill_whole-Kept fuel (accept_whole s inner found) reads
                    (accept_whole-range_len law s inner found ∙ w) opens,
              ))
  ]

  pub fill_range-Kept :
      (range fuel : ℕ) (s : FileStream R)
      → IsReader file range law
      → s.range_len ≡ some range
      → IsOpen law s
      → Kept law s (fill_range file fuel range s)
  unfolding fill_range
  fill_range-Kept range zero s reads w opened = tt
  fill_range-Kept range (suc fuel) s reads w opened = elim (Bool-cases (wants_range range s)) [
    | inr e ↦ rw (e, fill_range) (opened, refl, refl)
    | inl e ↦
        let more : s.end_of_file ≡ false = ground arith in
        rw (e, fill_range)
          (match_read-Kept law (fill_range file fuel range) (accept_range range) s
            (file.poll_read range s.inner) more opened (reads s.inner (opened more).0)
            λ inner found answers.
              let (opens, same) = accept_range-owes law range s inner found w more opened answers in
              (
                same,
                accept_range-range_len law range s inner found,
                fill_range-Kept range fuel (accept_range range s inner found) reads
                    (accept_range-range_len law range s inner found ∙ w) opens,
              ))
  ]
