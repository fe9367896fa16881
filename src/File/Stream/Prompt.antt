-- ===== src/File/Stream/Prompt.antt =====
-- The polls of a stream over a reader that never waits and never fails.
use saphir.Base.{
  ℕ, zero, suc, ◌≡◌, ◌<◌, refl, Bool, true, false, List, Option, none, some, ◌⊎◌, inl, inr, is_some,
  length, Bool-cases, Result, ok, err, arith, if◌then◌else◌, ◌∙◌, Option-cases,
}
use mathlib.Core.Path.{subst}
use saphir.File.Reader.{SaphirFile, IoError, Poll, ready, pending, Reads, Answers, IsReader}
use saphir.File.Stream.{
  FileStream, Exit, fill_whole, fill_range, fill, poll_next, match_read, accept_whole, accept_range,
  max_buffer, wants_whole, wants_range, filled, blocked, failed, leave,
}
use saphir.File.Stream.Owes.{
  accept_whole-owes, accept_range-owes, accept_range-range_len, accept_whole-range_len, IsWithin,
  IsOpen, IsSteady, buffer_size,
}
use saphir.File.Stream.Ends.{fill-is_some}

-- A reader that never waits and never fails
abbrev pub IsPrompt : {R : Type 0} → SaphirFile R → ℕ → Reads R → Type 0
IsPrompt file size law =
    (r : _)
    → law.IsSound r
    → (next : _) × (found : List ℕ) × (file.poll_read size r ≡ (next, ready (ok found)))

module _ {R : Type 0} (file : SaphirFile R) (law : Reads R) where
  -- The loop is left with its condition false, at the end or with something to hand over.
  abbrev Prompt : Option (FileStream R × Exit) → Type 0
  Prompt none = Unit
  Prompt (some (t, filled)) = (t.end_of_file ≡ true) ⊎ (0 < length t.buffer)
  Prompt (some (t, blocked)) = ⊥
  Prompt (some (t, failed e)) = ⊥

  fill_whole-Prompt :
      (fuel : ℕ) (s : FileStream R)
      → IsReader file max_buffer law
      → IsPrompt file max_buffer law
      → s.range_len ≡ none
      → IsOpen law s
      → Prompt (fill_whole file fuel s)
  unfolding fill_whole match_read
  fill_whole-Prompt zero s reads prompt w opened = tt
  fill_whole-Prompt (suc fuel) s reads prompt w opened = elim (Bool-cases (wants_whole s)) [
    | inr e ↦
        rw (e, fill_whole)
          (elim (Bool-cases s.end_of_file) [ inl ends ↦ inl ends | inr more ↦ inr (ground arith) ])
    | inl e ↦
        let more : s.end_of_file ≡ false = ground arith in
        let (inner, found, read) = prompt s.inner (opened more).0 in
        let answers : Answers law s.inner (inner, ready (ok found)) =
          subst (Answers law s.inner) read (reads s.inner (opened more).0) in
        rw (e, fill_whole, read)
          (fill_whole-Prompt fuel (accept_whole s inner found) reads prompt
            (accept_whole-range_len law s inner found ∙ w)
            (accept_whole-owes law s inner found w more answers).0)
  ]

  fill_range-Prompt :
      (fuel range : ℕ) (s : FileStream R)
      → IsReader file range law
      → IsPrompt file range law
      → s.range_len ≡ some range
      → IsOpen law s
      → Prompt (fill_range file fuel range s)
  unfolding fill_range match_read
  fill_range-Prompt zero range s reads prompt w opened = tt
  fill_range-Prompt (suc fuel) range s reads prompt w opened =
      elim (Bool-cases (wants_range range s)) [
        | inr e ↦
            rw (e, fill_range)
              (elim (Bool-cases s.end_of_file) [
                | inl ends ↦ inl ends
                | inr more ↦
                    let within : s.amount_read < range =
                      subst (λ r. IsWithin r s.amount_read) w (opened more).1 in
                    absurd (ground arith)
              ])
        | inl e ↦
            let more : s.end_of_file ≡ false = ground arith in
            let (inner, found, read) = prompt s.inner (opened more).0 in
            let answers : Answers law s.inner (inner, ready (ok found)) =
              subst (Answers law s.inner) read (reads s.inner (opened more).0) in
            rw (e, fill_range, read)
              (fill_range-Prompt fuel range (accept_range range s inner found) reads prompt
                (accept_range-range_len law range s inner found ∙ w)
                (accept_range-owes law range s inner found w more opened answers).0)
      ]

  fill-Prompt :
      (s : FileStream R)
      → IsReader file (buffer_size s.range_len) law
      → IsPrompt file (buffer_size s.range_len) law
      → IsOpen law s
      → Prompt (fill file s)
  unfolding fill
  fill-Prompt s reads prompt opened = elim (Option-cases s.range_len) [
    | inl w ↦
        simp (w, fill)
          (fill_whole-Prompt (suc (suc max_buffer)) s
            (subst (λ r. IsReader file (buffer_size r) law) w reads)
            (subst (λ r. IsPrompt file (buffer_size r) law) w prompt) w opened)
    | inr (range, w) ↦
        simp (w, fill)
          (fill_range-Prompt (suc (suc range)) range s
            (subst (λ r. IsReader file (buffer_size r) law) w reads)
            (subst (λ r. IsPrompt file (buffer_size r) law) w prompt) w opened)
  ]

  -- What a poll answers: the end, or a chunk that is not empty or the last one.
  abbrev pub Advances :
      FileStream R → Option (FileStream R × Poll (Option (Result (List ℕ) IoError))) → Type 0
  Advances s none = ⊥
  Advances s (some (t, ready none)) = t.end_of_file ≡ true
  Advances s (some (t, ready (some (ok chunk)))) =
      (s.end_of_file ≡ false) × ((t.end_of_file ≡ true) ⊎ (0 < length chunk))
  Advances s (some (t, ready (some (err e)))) = ⊥
  Advances s (some (t, pending)) = ⊥

  pub poll_next-Advances :
      (s : FileStream R)
      → IsReader file (buffer_size s.range_len) law
      → IsPrompt file (buffer_size s.range_len) law
      → IsSteady law s
      → Advances s (poll_next file s)
  unfolding poll_next leave
  poll_next-Advances s reads prompt steady =
      from_exit s.end_of_file (fill file s) refl (fill-is_some file s)
        (fill-Prompt s reads prompt steady.1)
    where
      from_exit :
          (ends : Bool) (found : Option (FileStream R × Exit))
          → s.end_of_file ≡ ends
          → is_some found ≡ true
          → Prompt found
          → Advances s (
              if ends
              then some (s, ready none)
              else elim found [ none ↦ none | some x ↦ some (leave x) ])
      from_exit true found e h p = e
      from_exit false none e h p = absurd cc
      from_exit false (some (t, filled)) e h p = (e, p)
      from_exit false (some (t, blocked)) e h p = absurd p
      from_exit false (some (t, failed x)) e h p = absurd p
